-- ===== src/Vault/Inscribe.antt =====
-- instructions/vault.rs: `inscribe_core` and the three handlers that inscribe.
use synapse_sap.Common.{ℕ, ◌/◌, ◌%◌, true, not, leb, ltb, ◌==◌, if◌then◌else◌, length}
use synapse_sap.Common.Int.{pos, ltb_ℤ}
use synapse_sap.Errors.{
  Result, ok, require, constraint, ◌>>=◌, ◌>>◌, constraint_seeds, constraint_has_one,
  session_closed, invalid_sequence, epoch_mismatch, invalid_total_fragments, invalid_fragment_index,
  inscription_too_large, empty_inscription, invalid_delegate, delegate_expired,
}
use synapse_sap.Checked.{as_u32, checked_add_u16, checked_add_u32, checked_add_u64}
use synapse_sap.State.{
  Pubkey, Hash, Bytes, MemoryVault, SessionLedger, EpochPage, VaultDelegate, max_inscription_size,
  inscriptions_per_epoch, permission_inscribe,
}
use synapse_sap.Runtime.{Runtime, Bank, Clock}
use synapse_sap.Seeds.{vault_seeds, epoch_seeds, delegate_seeds, at_address, at_bump}
use synapse_sap.Owner.{VaultOwner, vault_constraints}

-- The arguments that are checked or stored; the nonce and the compression only go to the log.
pub record MemoryArgs : Type 0 where
  pub sequence : ℕ
  pub encrypted_data : Bytes
  pub content_hash : Hash
  pub total_fragments : ℕ
  pub fragment_index : ℕ
  pub epoch_index : ℕ

-- The page is the contents after `init_if_needed`, all zero where it was just created.
pub record InscribeAccounts : Type 0 where
  pub vault_owner : VaultOwner
  pub session_key : Pubkey
  pub session : SessionLedger
  pub epoch_page_key : Pubkey
  pub epoch_page : EpochPage

pub record Inscribed : Type 0 where
  pub session : SessionLedger
  pub vault : MemoryVault
  pub epoch_page : EpochPage
  pub bank : Bank

unfoldable pub check_memory : MemoryArgs → SessionLedger → Result (Unit {0})
check_memory args session = do
  require (args.sequence == session.sequence_counter) invalid_sequence
  require (args.epoch_index == args.sequence / inscriptions_per_epoch) epoch_mismatch
  require (leb 1 args.total_fragments) invalid_total_fragments
  require (ltb args.fragment_index args.total_fragments) invalid_fragment_index
  require (leb (length args.encrypted_data) max_inscription_size) inscription_too_large
  require (ltb 0 (length args.encrypted_data)) empty_inscription

-- The first inscription of an epoch fills the page's header.
unfoldable pub open_epoch :
    Pubkey → ℕ → MemoryArgs → Clock → SessionLedger → EpochPage → Result (SessionLedger × EpochPage)
open_epoch session_key bump args clock session page =
    if page.session == 0
    then (do
      total ← checked_add_u32 session.total_epochs 1
      ok (
        record session { current_epoch = args.epoch_index; total_epochs = total },
        record {
          bump = bump;
          session = session_key;
          epoch_index = args.epoch_index;
          start_sequence = args.sequence;
          inscription_count = 0;
          total_bytes = 0;
          first_ts = clock.unix_timestamp;
          last_ts = clock.unix_timestamp;
        },
      ))
    else ok (session, page)

unfoldable pub count_in_page : ℕ → Clock → EpochPage → Result EpochPage
count_in_page data_len clock page = do
  count ← checked_add_u16 page.inscription_count 1
  bytes ← checked_add_u32 page.total_bytes data_len
  ok (record page {
    inscription_count = count;
    total_bytes = bytes;
    last_ts = clock.unix_timestamp;
  })

unfoldable pub count_in_vault : ℕ → MemoryVault → Result MemoryVault
count_in_vault data_len vault = do
  count ← checked_add_u64 vault.total_inscriptions 1
  bytes ← checked_add_u64 vault.total_bytes_inscribed data_len
  ok (record vault { total_inscriptions = count; total_bytes_inscribed = bytes })

module _ (rt : Runtime) where
  -- The accumulator and the session's metadata.
  unfoldable pub extend_session : ℕ → Hash → Clock → SessionLedger → Result SessionLedger
  extend_session data_len content_hash clock session = do
    sequence ← checked_add_u32 session.sequence_counter 1
    bytes ← checked_add_u64 session.total_bytes data_len
    ok (record session {
      merkle_root = rt.hash_pair session.merkle_root content_hash;
      sequence_counter = sequence;
      total_bytes = bytes;
      last_inscribed_at = clock.unix_timestamp;
      tip_hash = content_hash;
    })

  unfoldable pub inscribe_core :
      Pubkey
      → ℕ
      → MemoryArgs
      → Clock
      → SessionLedger
      → MemoryVault
      → EpochPage
      → Result (SessionLedger × MemoryVault × EpochPage)
  unfolding check_memory open_epoch count_in_page count_in_vault extend_session
  inscribe_core session_key bump args clock session vault page = do
    check_memory args session
    let data_len = as_u32 (length args.encrypted_data)
    (session₁, page₁) ← open_epoch session_key bump args clock session page
    page₂ ← count_in_page data_len clock page₁
    session₂ ← extend_session data_len args.content_hash clock session₁
    vault' ← count_in_vault data_len vault
    ok (session₂, vault', page₂)

  unfoldable pub session_constraints : Pubkey → SessionLedger → Result (Unit {0})
  session_constraints vault_key session = do
    constraint (session.vault == vault_key) constraint_has_one
    require (not session.is_closed) session_closed

  -- The page's account, paid by the signer, and the shared body.
  unfoldable pub inscribe_page :
      Pubkey → InscribeAccounts → MemoryArgs → Clock → Bank → Result Inscribed
  inscribe_page payer accounts args clock bank = do
    let seeds = epoch_seeds accounts.session_key args.epoch_index
    constraint (at_address rt seeds accounts.epoch_page_key) constraint_seeds
    bank₁ ← rt.init_if_needed payer accounts.epoch_page_key bank
    (session, vault, page) ←
        inscribe_core accounts.session_key (rt.find_program_address seeds).1 args clock
          accounts.session accounts.vault_owner.vault accounts.epoch_page
    ok (record { session = session; vault = vault; epoch_page = page; bank = bank₁ })

  unfoldable pub inscribe_memory : InscribeAccounts → MemoryArgs → Clock → Bank → Result Inscribed
  unfolding session_constraints inscribe_page
  inscribe_memory accounts args clock bank = do
    vault_constraints rt accounts.vault_owner
    session_constraints accounts.vault_owner.vault_key accounts.session
    inscribe_page accounts.vault_owner.owner.wallet accounts args clock bank

  -- `permissions & PERMISSION_INSCRIBE` is the lowest bit. A delegate with `expires_at` 0 is from
  -- before expiries and never expires.
  unfoldable pub delegate_allowed : VaultDelegate → Clock → Result (Unit {0})
  delegate_allowed del clock = do
    require (del.permissions % 2 == permission_inscribe) invalid_delegate
    require
        (if ltb_ℤ (pos 0) del.expires_at then ltb_ℤ clock.unix_timestamp del.expires_at else true)
        delegate_expired

  -- The agent is not tied to a wallet here: its vault and the delegate are.
  unfoldable pub delegate_constraints :
      Pubkey → InscribeAccounts → Pubkey → VaultDelegate → Result (Unit {0})
  delegate_constraints signer accounts delegate_key del = do
    let v = accounts.vault_owner
    constraint (at_bump rt (vault_seeds v.owner.agent_key) v.vault.bump v.vault_key)
        constraint_seeds
    constraint (at_bump rt (delegate_seeds v.vault_key signer) del.bump delegate_key)
        constraint_seeds
    constraint (del.vault == v.vault_key) constraint_has_one
    require (del.delegate == signer) invalid_delegate

  -- The wallet of the owner in the accounts is not read.
  unfoldable pub inscribe_memory_delegated :
      Pubkey
      → Pubkey
      → VaultDelegate
      → InscribeAccounts
      → MemoryArgs
      → Clock
      → Bank
      → Result Inscribed
  unfolding delegate_constraints session_constraints delegate_allowed inscribe_page
  inscribe_memory_delegated signer delegate_key del accounts args clock bank = do
    delegate_constraints signer accounts delegate_key del
    session_constraints accounts.vault_owner.vault_key accounts.session
    delegate_allowed del clock
    inscribe_page signer accounts args clock bank

  -- With no epoch page and no fragments.
  unfoldable pub compact_inscribe :
      VaultOwner → SessionLedger → ℕ → Bytes → Hash → Clock → Result (SessionLedger × MemoryVault)
  unfolding session_constraints extend_session count_in_vault
  compact_inscribe v session sequence encrypted_data content_hash clock = do
    vault_constraints rt v
    session_constraints v.vault_key session
    require (sequence == session.sequence_counter) invalid_sequence
    require (leb (length encrypted_data) max_inscription_size) inscription_too_large
    require (ltb 0 (length encrypted_data)) empty_inscription
    let data_len = as_u32 (length encrypted_data)
    session' ← extend_session data_len content_hash clock session
    vault' ← count_in_vault data_len v.vault
    ok (session', vault')
