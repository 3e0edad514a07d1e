-- ===== src/Registry/Handlers.antt =====
-- instructions/global.rs and instructions/reclaim.rs: the two handlers.
use synapse_sap.Common.{Bool, true, false, ◌==◌, if◌then◌else◌}
use synapse_sap.Common.Int.{pos}
use synapse_sap.Errors.{
  Error, Result, ok, err, program, panicked, require, constraint, ◌>>=◌, ◌>>◌, constraint_seeds,
  not_authority, arithmetic_overflow,
}
use synapse_sap.Checked.{checked_sub_u64}
use synapse_sap.State.{Pubkey, GlobalRegistry}
use synapse_sap.Runtime.{Runtime, Bank, Clock, debit, credit, data_len}
use synapse_sap.Seeds.{global_seeds, at_address}
use synapse_sap.Owner.{global_constraints}

-- A check of Anchor or of Solana.
abbrev ensure : Bool → Error → Result (Unit {0})
ensure true e = ok tt
ensure false e = err e

module _ (rt : Runtime) where
  unfoldable pub initialize_global : Pubkey → Pubkey → Clock → Bank → Result (GlobalRegistry × Bank)
  initialize_global authority global_key clock bank = do
    constraint (at_address rt global_seeds global_key) constraint_seeds
    bank₁ ← rt.init authority global_key bank
    ok (
      record {
        bump = (rt.find_program_address global_seeds).1;
        total_agents = 0;
        active_agents = 0;
        total_feedbacks = 0;
        total_capabilities = 0;
        total_protocols = 0;
        last_registered_at = pos 0;
        initialized_at = clock.unix_timestamp;
        authority = authority;
        total_tools = 0;
        total_vaults = 0;
        total_escrows = 0;
        total_attestations = 0;
      },
      bank₁,
    )

  -- `SystemAccount` asks for an owner, with Anchor's AccountNotSystemOwned, 3011. Lamports are taken
  -- from an account of the program only, or Solana aborts the instruction.
  unfoldable pub reclaim_excess_rent :
      Pubkey → Pubkey → Pubkey → Pubkey → GlobalRegistry → Bank → Result Bank
  unfolding global_constraints debit credit
  reclaim_excess_rent authority target destination global_key registry bank = do
    ensure (bank.owner destination == rt.system_program_id) (program 3011)
    global_constraints rt global_key registry
    require (authority == registry.authority) not_authority
    excess ←
        checked_sub_u64 (bank.lamports target) (rt.minimum_balance (data_len bank target))
          arithmetic_overflow
    if excess == 0 then ok bank else (do
      ensure (bank.owner target == rt.program_id) panicked
      bank₁ ← credit destination excess bank
      debit target excess bank₁)
