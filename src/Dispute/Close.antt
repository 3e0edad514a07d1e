-- ===== src/Dispute/Close.antt =====
-- instructions/dispute.rs: `close_dispute` and `close_pending_settlement`, whose bodies are empty:
-- all they do is in the constraints.
use synapse_sap.Common.{not, ◌==◌}
use synapse_sap.Errors.{
  Result, require, constraint, ◌>>◌, constraint_seeds, not_depositor, dispute_still_open,
  settlement_not_pending,
}
use synapse_sap.State.{Pubkey, PendingSettlement, DisputeRecord}
use synapse_sap.Runtime.{Runtime, Bank}
use synapse_sap.Seeds.{pending_seeds, dispute_seeds, at_bump}
use synapse_sap.Escrow.Finalize.{outcome_is_pending}

unfoldable pub close_dispute : Runtime → Pubkey → Pubkey → DisputeRecord → Bank → Result Bank
close_dispute rt depositor dispute_key d bank = do
  constraint (at_bump rt (dispute_seeds d.pending_settlement) d.bump dispute_key) constraint_seeds
  require (d.depositor == depositor) not_depositor
  require (not (outcome_is_pending d.outcome)) dispute_still_open
  rt.close dispute_key depositor bank

unfoldable pub close_pending_settlement :
    Runtime → Pubkey → Pubkey → PendingSettlement → Bank → Result Bank
close_pending_settlement rt payer pending_key ps bank = do
  constraint (at_bump rt (pending_seeds ps.escrow ps.settlement_index) ps.bump pending_key)
      constraint_seeds
  require ps.is_finalized settlement_not_pending
  rt.close pending_key payer bank
