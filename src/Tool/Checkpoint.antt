-- ===== src/Tool/Checkpoint.antt =====
-- instructions/tools.rs: the handlers of checkpoints of a memory session.
use synapse_sap.Common.{ℕ, ◌==◌}
use synapse_sap.Errors.{
  Result, ok, require, constraint, ◌>>=◌, ◌>>◌, constraint_seeds, constraint_has_one,
  invalid_checkpoint_index,
}
use synapse_sap.Checked.{checked_add_u32}
use synapse_sap.State.{Pubkey, SessionLedger, SessionCheckpoint}
use synapse_sap.Runtime.{Runtime, Bank, Clock}
use synapse_sap.Seeds.{checkpoint_seeds, at_address, at_bump}
use synapse_sap.Owner.{VaultOwner, vault_constraints}

module _ (rt : Runtime) where
  -- The session may be closed.
  unfoldable pub create_session_checkpoint :
      VaultOwner
      → Pubkey
      → SessionLedger
      → Pubkey
      → ℕ
      → Clock
      → Bank
      → Result (SessionCheckpoint × SessionLedger × Bank)
  unfolding vault_constraints
  create_session_checkpoint v session_key session key checkpoint_index clock bank = do
    let seeds = checkpoint_seeds session_key checkpoint_index
    vault_constraints rt v
    constraint (session.vault == v.vault_key) constraint_has_one
    constraint (at_address rt seeds key) constraint_seeds
    bank₁ ← rt.init v.owner.wallet key bank
    require (checkpoint_index == session.total_checkpoints) invalid_checkpoint_index
    checkpoints ← checked_add_u32 session.total_checkpoints 1
    ok (
      record {
        bump = (rt.find_program_address seeds).1;
        session = session_key;
        checkpoint_index = checkpoint_index;
        merkle_root = session.merkle_root;
        sequence_at = session.sequence_counter;
        epoch_at = session.current_epoch;
        total_bytes_at = session.total_bytes;
        inscriptions_at = session.sequence_counter;
        created_at = clock.unix_timestamp;
      },
      record session { total_checkpoints = checkpoints },
      bank₁,
    )

  unfoldable pub close_checkpoint :
      VaultOwner → Pubkey → SessionLedger → Pubkey → SessionCheckpoint → ℕ → Bank → Result Bank
  unfolding vault_constraints
  close_checkpoint v session_key session key checkpoint checkpoint_index bank = do
    vault_constraints rt v
    constraint (session.vault == v.vault_key) constraint_has_one
    constraint (at_bump rt (checkpoint_seeds session_key checkpoint_index) checkpoint.bump key)
        constraint_seeds
    constraint (checkpoint.session == session_key) constraint_has_one
    rt.close key v.owner.wallet bank
