-- ===== src/Ledger/Handlers.antt =====
-- instructions/ledger.rs: the four handlers.
use synapse_sap.Common.{◌+◌, not, [], ◌++◌, leb, ltb, ◌==◌, length, le_bytes}
use synapse_sap.Errors.{
  Result, ok, require, constraint, ◌>>=◌, ◌>>◌, constraint_seeds, constraint_has_one,
  session_closed, unauthorized, invalid_session, empty_inscription, ledger_data_too_large,
  empty_digest_hash, ledger_ring_empty,
}
use synapse_sap.Checked.{as_u32, checked_add_u32, checked_add_u64}
use synapse_sap.State.{Pubkey, Hash, Bytes, SessionLedger, MemoryLedger, LedgerPage}
use synapse_sap.Runtime.{Runtime, Bank, Clock}
use synapse_sap.Seeds.{ledger_seeds, page_seeds, at_address, at_bump}
use synapse_sap.Owner.{VaultOwner, vault_constraints}
use synapse_sap.Ledger.Ring.{evict, count_entries}

pub record LedgerAccounts : Type 0 where
  pub vault_owner : VaultOwner
  pub session_key : Pubkey
  pub session : SessionLedger
  pub ledger_key : Pubkey
  pub ledger : MemoryLedger

-- The checks of the data, before anything is written.
unfoldable pub check_entry : Bytes → Hash → Result (Unit {0})
check_entry content content_hash = do
  require (ltb 0 (length content)) empty_inscription
  require (leb (length content) 750) ledger_data_too_large
  require (not (content_hash == 0)) empty_digest_hash

-- "Append new entry", after room was made for it; the length is cast to a u16.
unfoldable pub append_entry : Bytes → Bytes → Result Bytes
append_entry ring content = do
  kept ← evict (length ring) (2 + length content) ring
  ok (kept ++ (le_bytes 2 (length content) ++ content))

module _ (rt : Runtime) where
  unfoldable pub ledger_session_constraints : LedgerAccounts → Result (Unit {0})
  ledger_session_constraints accounts =
      constraint (accounts.session.vault == accounts.vault_owner.vault_key) constraint_has_one

  -- The constraints of `write_ledger`, `seal_ledger` and `close_ledger` on the ledger.
  unfoldable pub ledger_constraints : LedgerAccounts → Result (Unit {0})
  ledger_constraints accounts = do
    vault_constraints rt accounts.vault_owner
    let l = accounts.ledger
    constraint (at_bump rt (ledger_seeds accounts.session_key) l.bump accounts.ledger_key)
        constraint_seeds
    require (l.authority == accounts.vault_owner.owner.wallet) unauthorized
    require (l.session == accounts.session_key) invalid_session

  -- The field `ledger` of the accounts is not read: the account is created here.
  unfoldable pub init_ledger : LedgerAccounts → Clock → Bank → Result (MemoryLedger × Bank)
  unfolding ledger_session_constraints
  init_ledger accounts clock bank = do
    let seeds = ledger_seeds accounts.session_key
    vault_constraints rt accounts.vault_owner
    ledger_session_constraints accounts
    require (not accounts.session.is_closed) session_closed
    constraint (at_address rt seeds accounts.ledger_key) constraint_seeds
    bank₁ ← rt.init accounts.vault_owner.owner.wallet accounts.ledger_key bank
    ok (
      record {
        bump = (rt.find_program_address seeds).1;
        session = accounts.session_key;
        authority = accounts.vault_owner.owner.wallet;
        num_entries = 0;
        merkle_root = 0;
        latest_hash = 0;
        total_data_size = 0;
        created_at = clock.unix_timestamp;
        updated_at = clock.unix_timestamp;
        num_pages = 0;
        ring = [];
      },
      bank₁,
    )

  unfoldable pub write_ledger : LedgerAccounts → Bytes → Hash → Clock → Result MemoryLedger
  unfolding ledger_session_constraints ledger_constraints check_entry
  write_ledger accounts content content_hash clock = do
    ledger_session_constraints accounts
    require (not accounts.session.is_closed) session_closed
    ledger_constraints accounts
    check_entry content content_hash
    let l = accounts.ledger
    entries ← checked_add_u32 l.num_entries 1
    size ← checked_add_u64 l.total_data_size (as_u32 (length content))
    ring ← append_entry l.ring content
    ok (record l {
      merkle_root = rt.hash_pair l.merkle_root content_hash;
      num_entries = entries;
      total_data_size = size;
      latest_hash = content_hash;
      updated_at = clock.unix_timestamp;
      ring = ring;
    })

  unfoldable pub close_ledger : LedgerAccounts → Bank → Result Bank
  unfolding ledger_session_constraints ledger_constraints
  close_ledger accounts bank = do
    ledger_session_constraints accounts
    ledger_constraints accounts
    rt.close accounts.ledger_key accounts.vault_owner.owner.wallet bank

  unfoldable pub seal_ledger :
      LedgerAccounts → Pubkey → Clock → Bank → Result (MemoryLedger × LedgerPage × Bank)
  unfolding ledger_session_constraints ledger_constraints
  seal_ledger accounts page_key clock bank = do
    let l = accounts.ledger
    let seeds = page_seeds accounts.ledger_key l.num_pages
    ledger_session_constraints accounts
    require (not accounts.session.is_closed) session_closed
    ledger_constraints accounts
    constraint (at_address rt seeds page_key) constraint_seeds
    bank₁ ← rt.init accounts.vault_owner.owner.wallet page_key bank
    require (ltb 0 (length l.ring)) ledger_ring_empty
    pages ← checked_add_u32 l.num_pages 1
    ok (
      record l { num_pages = pages; ring = []; updated_at = clock.unix_timestamp },
      record {
        bump = (rt.find_program_address seeds).1;
        ledger = accounts.ledger_key;
        page_index = l.num_pages;
        sealed_at = clock.unix_timestamp;
        entries_in_page = count_entries (length l.ring) l.ring;
        data_size = as_u32 (length l.ring);
        merkle_root_at_seal = l.merkle_root;
        page_data = l.ring;
      },
      bank₁,
    )
