-- ===== src/Legacy/Digest.antt =====
-- instructions/digest.rs: the five handlers. What only goes to the log is left out.
use synapse_sap.Common.{ℕ, not, leb, ltb, ◌==◌, length}
use synapse_sap.Errors.{
  Result, ok, require, constraint, ◌>>=◌, ◌>>◌, constraint_seeds, constraint_has_one,
  session_closed, unauthorized, invalid_session, empty_inscription, inscription_too_large,
  empty_digest_hash,
}
use synapse_sap.Checked.{as_u32, checked_add_u32, checked_add_u64}
use synapse_sap.State.{Pubkey, Hash, Bytes, SessionLedger, MemoryDigest, max_inscription_size}
use synapse_sap.Runtime.{Runtime, Bank, Clock}
use synapse_sap.Seeds.{digest_seeds, at_address, at_bump}
use synapse_sap.Owner.{VaultOwner, vault_constraints}

pub record DigestAccounts : Type 0 where
  pub vault_owner : VaultOwner
  pub session_key : Pubkey
  pub session : SessionLedger
  pub digest_key : Pubkey
  pub digest : MemoryDigest

module _ (rt : Runtime) where
  unfoldable pub digest_session_constraints : DigestAccounts → Result (Unit {0})
  digest_session_constraints a =
      constraint (a.session.vault == a.vault_owner.vault_key) constraint_has_one

  -- The constraints of the handlers after `init_digest` on the digest.
  unfoldable pub digest_constraints : DigestAccounts → Result (Unit {0})
  digest_constraints a = do
    let d = a.digest
    constraint (at_bump rt (digest_seeds a.session_key) d.bump a.digest_key) constraint_seeds
    require (d.authority == a.vault_owner.owner.wallet) unauthorized
    require (d.session == a.session_key) invalid_session

  -- The field `digest` of the accounts is not read: the account is created here.
  unfoldable pub init_digest : DigestAccounts → Clock → Bank → Result (MemoryDigest × Bank)
  unfolding digest_session_constraints
  init_digest a clock bank = do
    let seeds = digest_seeds a.session_key
    vault_constraints rt a.vault_owner
    digest_session_constraints a
    require (not a.session.is_closed) session_closed
    constraint (at_address rt seeds a.digest_key) constraint_seeds
    bank₁ ← rt.init a.vault_owner.owner.wallet a.digest_key bank
    ok (
      record {
        bump = (rt.find_program_address seeds).1;
        session = a.session_key;
        authority = a.vault_owner.owner.wallet;
        num_entries = 0;
        merkle_root = 0;
        latest_hash = 0;
        total_data_size = 0;
        storage_ref = 0;
        storage_type = 0;
        created_at = clock.unix_timestamp;
        updated_at = clock.unix_timestamp;
      },
      bank₁,
    )

  unfoldable pub post_digest : DigestAccounts → Hash → ℕ → Clock → Result MemoryDigest
  unfolding digest_session_constraints digest_constraints
  post_digest a content_hash data_size clock = do
    digest_session_constraints a
    require (not a.session.is_closed) session_closed
    vault_constraints rt a.vault_owner
    digest_constraints a
    require (not (content_hash == 0)) empty_digest_hash
    let d = a.digest
    entries ← checked_add_u32 d.num_entries 1
    size ← checked_add_u64 d.total_data_size data_size
    ok (record d {
      merkle_root = rt.hash_pair d.merkle_root content_hash;
      num_entries = entries;
      total_data_size = size;
      latest_hash = content_hash;
      updated_at = clock.unix_timestamp;
    })

  unfoldable pub inscribe_to_digest : DigestAccounts → Bytes → Hash → Clock → Result MemoryDigest
  unfolding digest_session_constraints digest_constraints
  inscribe_to_digest a content content_hash clock = do
    vault_constraints rt a.vault_owner
    digest_session_constraints a
    require (not a.session.is_closed) session_closed
    digest_constraints a
    require (ltb 0 (length content)) empty_inscription
    require (leb (length content) max_inscription_size) inscription_too_large
    require (not (content_hash == 0)) empty_digest_hash
    let data_len = as_u32 (length content)
    let d = a.digest
    entries ← checked_add_u32 d.num_entries 1
    size ← checked_add_u64 d.total_data_size data_len
    ok (record d {
      merkle_root = rt.hash_pair d.merkle_root content_hash;
      num_entries = entries;
      total_data_size = size;
      latest_hash = content_hash;
      updated_at = clock.unix_timestamp;
    })

  -- The session may be closed, here and in `close_digest`.
  unfoldable pub update_digest_storage : DigestAccounts → Hash → ℕ → Clock → Result MemoryDigest
  unfolding digest_session_constraints digest_constraints
  update_digest_storage a storage_ref storage_type clock = do
    digest_session_constraints a
    vault_constraints rt a.vault_owner
    digest_constraints a
    ok (record (a.digest) {
      storage_ref = storage_ref;
      storage_type = storage_type;
      updated_at = clock.unix_timestamp;
    })

  unfoldable pub close_digest : DigestAccounts → Bank → Result Bank
  unfolding digest_session_constraints digest_constraints
  close_digest a bank = do
    digest_session_constraints a
    vault_constraints rt a.vault_owner
    digest_constraints a
    rt.close a.digest_key a.vault_owner.owner.wallet bank
