-- ===== src/Vault/Handlers.antt =====
-- instructions/vault.rs: the handlers that open and close vaults, sessions and epoch pages, rotate
-- the nonce, and add and revoke delegates.
use synapse_sap.Common.{ℕ, true, false, not, ◌==◌, ◌&&◌}
use synapse_sap.Common.Int.{ℤ, pos, ltb_ℤ, leb_ℤ}
use synapse_sap.Errors.{
  Result, ok, require, constraint, ◌>>=◌, ◌>>◌, constraint_seeds, constraint_has_one,
  session_closed, session_not_closed, session_still_open, delegate_expiry_invalid,
}
use synapse_sap.Checked.{checked_add_u32, checked_add_i64, saturating_sub}
use synapse_sap.State.{
  Pubkey, Hash, MemoryVault, SessionLedger, EpochPage, VaultDelegate, GlobalRegistry,
  vault_protocol_version, max_delegate_duration_secs,
}
use synapse_sap.Runtime.{Runtime, Bank, Clock}
use synapse_sap.Seeds.{vault_seeds, session_seeds, epoch_seeds, delegate_seeds, at_address, at_bump}
use synapse_sap.Owner.{
  Owner, VaultOwner, owner_constraints, vault_constraints, own_vault_constraints,
  global_constraints,
}

module _ (rt : Runtime) where
  unfoldable pub init_vault :
      Owner
      → Pubkey
      → Pubkey
      → GlobalRegistry
      → Hash
      → Clock
      → Bank
      → Result (MemoryVault × GlobalRegistry × Bank)
  unfolding global_constraints
  init_vault o vault_key global_key global vault_nonce clock bank = do
    let seeds = vault_seeds o.agent_key
    owner_constraints rt o
    constraint (at_address rt seeds vault_key) constraint_seeds
    bank₁ ← rt.init o.wallet vault_key bank
    global_constraints rt global_key global
    vaults ← checked_add_u32 global.total_vaults 1
    ok (
      record {
        bump = (rt.find_program_address seeds).1;
        agent = o.agent_key;
        wallet = o.wallet;
        vault_nonce = vault_nonce;
        total_sessions = 0;
        total_inscriptions = 0;
        total_bytes_inscribed = 0;
        created_at = clock.unix_timestamp;
        protocol_version = vault_protocol_version;
        nonce_version = 0;
        last_nonce_rotation = pos 0;
      },
      record global { total_vaults = vaults },
      bank₁,
    )

  unfoldable pub open_session :
      VaultOwner → Pubkey → Hash → Clock → Bank → Result (SessionLedger × MemoryVault × Bank)
  open_session v session_key session_hash clock bank = do
    let seeds = session_seeds v.vault_key session_hash
    vault_constraints rt v
    constraint (at_address rt seeds session_key) constraint_seeds
    bank₁ ← rt.init v.owner.wallet session_key bank
    sessions ← checked_add_u32 v.vault.total_sessions 1
    ok (
      record {
        bump = (rt.find_program_address seeds).1;
        vault = v.vault_key;
        session_hash = session_hash;
        sequence_counter = 0;
        total_bytes = 0;
        current_epoch = 0;
        total_epochs = 0;
        created_at = clock.unix_timestamp;
        last_inscribed_at = pos 0;
        is_closed = false;
        merkle_root = 0;
        total_checkpoints = 0;
        tip_hash = 0;
      },
      record (v.vault) { total_sessions = sessions },
      bank₁,
    )

  unfoldable pub close_session : VaultOwner → SessionLedger → Result SessionLedger
  close_session v session = do
    vault_constraints rt v
    constraint (session.vault == v.vault_key) constraint_has_one
    require (not session.is_closed) session_closed
    ok (record session { is_closed = true })

  unfoldable pub close_vault :
      VaultOwner → Pubkey → GlobalRegistry → Bank → Result (GlobalRegistry × Bank)
  unfolding global_constraints
  close_vault v global_key global bank = do
    own_vault_constraints rt v
    global_constraints rt global_key global
    bank₁ ← rt.close v.vault_key v.owner.wallet bank
    ok (record global { total_vaults = saturating_sub global.total_vaults 1 }, bank₁)

  unfoldable pub close_session_pda : VaultOwner → Pubkey → SessionLedger → Bank → Result Bank
  close_session_pda v session_key session bank = do
    vault_constraints rt v
    constraint (session.vault == v.vault_key) constraint_has_one
    require session.is_closed session_not_closed
    rt.close session_key v.owner.wallet bank

  unfoldable pub close_epoch_page :
      VaultOwner → Pubkey → SessionLedger → Pubkey → EpochPage → ℕ → Bank → Result Bank
  close_epoch_page v session_key session page_key page epoch_index bank = do
    vault_constraints rt v
    constraint (session.vault == v.vault_key) constraint_has_one
    require session.is_closed session_still_open
    constraint (at_bump rt (epoch_seeds session_key epoch_index) page.bump page_key)
        constraint_seeds
    constraint (page.session == session_key) constraint_has_one
    rt.close page_key v.owner.wallet bank

  unfoldable pub rotate_vault_nonce : VaultOwner → Hash → Clock → Result MemoryVault
  rotate_vault_nonce v new_nonce clock = do
    own_vault_constraints rt v
    version ← checked_add_u32 v.vault.nonce_version 1
    ok (record (v.vault) {
      vault_nonce = new_nonce;
      nonce_version = version;
      last_nonce_rotation = clock.unix_timestamp;
    })

  unfoldable pub add_vault_delegate :
      VaultOwner → Pubkey → Pubkey → ℕ → ℤ → Clock → Bank → Result (VaultDelegate × Bank)
  add_vault_delegate v delegate_key delegate permissions expires_at clock bank = do
    let seeds = delegate_seeds v.vault_key delegate
    own_vault_constraints rt v
    constraint (at_address rt seeds delegate_key) constraint_seeds
    bank₁ ← rt.init v.owner.wallet delegate_key bank
    max_expiry ← checked_add_i64 clock.unix_timestamp max_delegate_duration_secs
    require (ltb_ℤ clock.unix_timestamp expires_at && leb_ℤ expires_at max_expiry)
        delegate_expiry_invalid
    ok (
      record {
        bump = (rt.find_program_address seeds).1;
        vault = v.vault_key;
        delegate = delegate;
        permissions = permissions;
        expires_at = expires_at;
        created_at = clock.unix_timestamp;
      },
      bank₁,
    )

  unfoldable pub revoke_vault_delegate : VaultOwner → Pubkey → VaultDelegate → Bank → Result Bank
  revoke_vault_delegate v delegate_key del bank = do
    vault_constraints rt v
    constraint (at_bump rt (delegate_seeds v.vault_key del.delegate) del.bump delegate_key)
        constraint_seeds
    constraint (del.vault == v.vault_key) constraint_has_one
    rt.close delegate_key v.owner.wallet bank
