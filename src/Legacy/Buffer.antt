-- ===== src/Legacy/Buffer.antt =====
-- instructions/buffer.rs: the three handlers.
use synapse_sap.Common.{ℕ, ◌+◌, not, [], ◌++◌, leb, ltb, ◌==◌, length}
use synapse_sap.Errors.{
  Result, ok, require, constraint, ◌>>=◌, ◌>>◌, constraint_seeds, constraint_has_one,
  session_closed, unauthorized, invalid_session, empty_inscription, buffer_data_too_large,
  buffer_full,
}
use synapse_sap.Checked.{checked_add_u16}
use synapse_sap.State.{
  Pubkey, Bytes, SessionLedger, MemoryBuffer, header_space, max_write_size, max_total_size,
}
use synapse_sap.Runtime.{Runtime, Bank, Clock}
use synapse_sap.Seeds.{buffer_seeds, at_address, at_bump}
use synapse_sap.Owner.{VaultOwner, vault_constraints}

pub record BufferAccounts : Type 0 where
  pub vault_owner : VaultOwner
  pub session_key : Pubkey
  pub session : SessionLedger
  pub buffer_key : Pubkey
  pub buffer : MemoryBuffer

-- The size that `append_buffer` asks for its account.
abbrev pub append_space : MemoryBuffer → Bytes → ℕ
append_space buffer content = header_space + buffer.total_size + length content

-- The handler's own part: `new_total` is at most 10,000 where it is cast to a u16, and its sum
-- does not leave a usize.
unfoldable pub append_content : MemoryBuffer → Bytes → Clock → Result MemoryBuffer
append_content b content clock = do
  require (leb (length content) max_write_size) buffer_data_too_large
  require (ltb 0 (length content)) empty_inscription
  let new_total = b.total_size + length content
  require (leb new_total max_total_size) buffer_full
  entries ← checked_add_u16 b.num_entries 1
  ok (record b {
    content = b.content ++ content;
    total_size = new_total;
    num_entries = entries;
    updated_at = clock.unix_timestamp;
  })

-- `realloc` is Anchor's: the payer, the account, its new size.
module _ (rt : Runtime) (realloc : Pubkey → Pubkey → ℕ → Bank → Result Bank) where
  unfoldable pub buffer_session_constraints : BufferAccounts → Result (Unit {0})
  buffer_session_constraints a =
      constraint (a.session.vault == a.vault_owner.vault_key) constraint_has_one

  -- The constraints of `append_buffer` and `close_buffer` on the buffer.
  unfoldable pub buffer_constraints : BufferAccounts → ℕ → Result (Unit {0})
  buffer_constraints a page_index = do
    constraint (at_bump rt (buffer_seeds a.session_key page_index) a.buffer.bump a.buffer_key)
        constraint_seeds
    require (a.buffer.authority == a.vault_owner.owner.wallet) unauthorized
    require (a.buffer.session == a.session_key) invalid_session

  -- The field `buffer` of the accounts is not read: the account is created here.
  unfoldable pub create_buffer : BufferAccounts → ℕ → Clock → Bank → Result (MemoryBuffer × Bank)
  unfolding buffer_session_constraints
  create_buffer a page_index clock bank = do
    let seeds = buffer_seeds a.session_key page_index
    vault_constraints rt a.vault_owner
    buffer_session_constraints a
    require (not a.session.is_closed) session_closed
    constraint (at_address rt seeds a.buffer_key) constraint_seeds
    bank₁ ← rt.init a.vault_owner.owner.wallet a.buffer_key bank
    ok (
      record {
        bump = (rt.find_program_address seeds).1;
        session = a.session_key;
        authority = a.vault_owner.owner.wallet;
        page_index = page_index;
        num_entries = 0;
        total_size = 0;
        created_at = clock.unix_timestamp;
        updated_at = clock.unix_timestamp;
        content = [];
      },
      bank₁,
    )

  unfoldable pub append_buffer :
      BufferAccounts → ℕ → Bytes → Clock → Bank → Result (MemoryBuffer × Bank)
  unfolding buffer_session_constraints buffer_constraints append_content
  append_buffer a page_index content clock bank = do
    vault_constraints rt a.vault_owner
    buffer_session_constraints a
    require (not a.session.is_closed) session_closed
    bank₁ ← realloc a.vault_owner.owner.wallet a.buffer_key (append_space a.buffer content) bank
    buffer_constraints a page_index
    b ← append_content a.buffer content clock
    ok (b, bank₁)

  unfoldable pub close_buffer : BufferAccounts → ℕ → Bank → Result Bank
  unfolding buffer_session_constraints buffer_constraints
  close_buffer a page_index bank = do
    vault_constraints rt a.vault_owner
    buffer_session_constraints a
    buffer_constraints a page_index
    rt.close a.buffer_key a.vault_owner.owner.wallet bank
