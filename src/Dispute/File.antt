-- ===== src/Dispute/File.antt =====
-- instructions/dispute.rs: `file_dispute` and `submit_agent_evidence`.
use synapse_sap.Common.{ℕ, ◌/◌, Bool, true, false, not, ltb, ◌==◌, if◌then◌else◌}
use synapse_sap.Common.Int.{ℤ, pos}
use synapse_sap.Errors.{
  Result, ok, err, sap, require, constraint, ◌>>=◌, ◌>>◌, constraint_seeds, constraint_has_one,
  constraint_raw, invalid_settlement_security, settlement_already_finalized, dispute_already_filed,
  dispute_window_expired, invalid_dispute_type,
}
use synapse_sap.Checked.{checked_add_u64, checked_mul_u64, as_u32, add_i64}
use synapse_sap.State.{
  Pubkey, Hash, EscrowAccountV2, PendingSettlement, DisputeRecord, DisputeType, DisputeOutcome,
  ResolutionLayer, SettlementSecurity, quality_dispute_bond_bps, proof_deadline_seconds,
}
use synapse_sap.Runtime.{Runtime, Bank, Clock}
use synapse_sap.Seeds.{agent_seeds, escrow_seeds, pending_seeds, dispute_seeds, at_address, at_bump}
use synapse_sap.Escrow.Finalize.{outcome_is_pending}

pub record FileAccounts : Type 0 where
  pub depositor : Pubkey
  pub escrow_key : Pubkey
  pub escrow : EscrowAccountV2
  pub pending_key : Pubkey
  pub pending_settlement : PendingSettlement
  pub dispute_key : Pubkey

abbrev pub security_is_window : SettlementSecurity → Bool
security_is_window SettlementSecurity.dispute_window = true
security_is_window _ = false

abbrev pub type_is_quality : DisputeType → Bool
type_is_quality DisputeType.quality = true
type_is_quality _ = false

-- The `match dispute_type`.
unfoldable pub parse_dispute_type : ℕ → Result DisputeType
parse_dispute_type n =
    if n == 0
    then ok DisputeType.non_delivery
    else if n == 1
    then ok DisputeType.partial_delivery
    else if n == 2
    then ok DisputeType.overcharge
    else if n == 3
    then ok DisputeType.quality
    else err (sap invalid_dispute_type)

-- A tenth of the amount for a dispute about quality, nothing for the others.
unfoldable pub bond_amount : DisputeType → ℕ → Result ℕ
bond_amount dtype amount =
    if type_is_quality dtype
    then (do product ← checked_mul_u64 amount quality_dispute_bond_bps; ok (product / 10000))
    else ok 0

unfoldable pub new_dispute : FileAccounts → DisputeType → Hash → ℕ → Clock → ℕ → ℤ → DisputeRecord
new_dispute accounts dtype evidence_hash bond clock bump deadline = record {
  bump = bump;
  pending_settlement = accounts.pending_key;
  escrow = accounts.escrow_key;
  depositor = accounts.depositor;
  agent = accounts.escrow.agent;
  dispute_type = dtype;
  evidence_hash = evidence_hash;
  agent_evidence_hash = 0;
  outcome = DisputeOutcome.pending;
  resolution_layer = ResolutionLayer.pending;
  created_at = clock.unix_timestamp;
  resolved_at = pos 0;
  resolution_hash = 0;
  slash_amount = 0;
  dispute_bond = bond;
  proven_calls = 0;
  claimed_calls = as_u32 accounts.pending_settlement.calls_to_settle;
  proof_deadline = deadline;
}

module _ (rt : Runtime) where
  unfoldable pub file_constraints : FileAccounts → Bank → Result Bank
  file_constraints accounts bank = do
    let e = accounts.escrow
    let ps = accounts.pending_settlement
    constraint
        (at_bump rt (escrow_seeds e.agent accounts.depositor e.escrow_nonce) e.bump
          accounts.escrow_key)
        constraint_seeds
    constraint (e.depositor == accounts.depositor) constraint_has_one
    require (security_is_window e.settlement_security) invalid_settlement_security
    constraint
        (at_bump rt (pending_seeds accounts.escrow_key ps.settlement_index) ps.bump
          accounts.pending_key)
        constraint_seeds
    constraint (ps.escrow == accounts.escrow_key) constraint_raw
    require (not ps.is_finalized) settlement_already_finalized
    require (outcome_is_pending ps.outcome) dispute_already_filed
    constraint (at_address rt (dispute_seeds accounts.pending_key) accounts.dispute_key)
        constraint_seeds
    rt.init accounts.depositor accounts.dispute_key bank

  -- The bond is added to `dispute_bond_total` of the escrow in memory, but the escrow is not among
  -- the accounts that are marked `mut`, so that sum is not written back: it can only overflow.
  unfoldable pub take_bond : FileAccounts → ℕ → Bank → Result Bank
  take_bond accounts bond bank =
      if ltb 0 bond
      then (do
        unwritten ← checked_add_u64 accounts.escrow.dispute_bond_total bond
        rt.system_transfer accounts.depositor accounts.escrow_key bond bank)
      else ok bank

  unfoldable pub file_dispute :
      FileAccounts → Hash → ℕ → Clock → Bank → Result (PendingSettlement × DisputeRecord × Bank)
  unfolding file_constraints take_bond new_dispute
  file_dispute accounts evidence_hash dispute_type clock bank = do
    bank₁ ← file_constraints accounts bank
    require (ltb clock.slot accounts.pending_settlement.release_slot) dispute_window_expired
    dtype ← parse_dispute_type dispute_type
    bond ← bond_amount dtype accounts.pending_settlement.amount
    bank₂ ← take_bond accounts bond bank₁
    let bump = (rt.find_program_address (dispute_seeds accounts.pending_key)).1
    deadline ← add_i64 clock.unix_timestamp proof_deadline_seconds
    ok (
      record (accounts.pending_settlement) { is_disputed = true },
      new_dispute accounts dtype evidence_hash bond clock bump deadline,
      bank₂,
    )

pub record EvidenceAccounts : Type 0 where
  pub wallet : Pubkey
  pub agent_key : Pubkey
  pub dispute_key : Pubkey
  pub dispute : DisputeRecord

-- `submit_agent_evidence`.
unfoldable pub submit_agent_evidence : Runtime → EvidenceAccounts → Hash → Result DisputeRecord
submit_agent_evidence rt accounts evidence_hash = do
  let d = accounts.dispute
  constraint (at_address rt (agent_seeds accounts.wallet) accounts.agent_key) constraint_seeds
  constraint (at_bump rt (dispute_seeds d.pending_settlement) d.bump accounts.dispute_key)
      constraint_seeds
  constraint (d.agent == accounts.agent_key) constraint_raw
  require (outcome_is_pending d.outcome) settlement_already_finalized
  ok (record d { agent_evidence_hash = evidence_hash })
