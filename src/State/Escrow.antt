-- ===== src/State/Escrow.antt =====
-- state.rs: escrows, receipt batches, pending settlements and disputes.
use synapse_sap.Common.{ℕ, Bool, Option, List}
use synapse_sap.Common.Int.{ℤ}
use synapse_sap.State.Agent.{Pubkey, Hash, VolumeCurveBreakpoint}

pub data SettlementSecurity : Type 0 where
  self_report co_signed dispute_window : SettlementSecurity

pub data DisputeOutcome : Type 0 where
  pending depositor_wins agent_wins auto_released partial_refund split : DisputeOutcome

pub data DisputeType : Type 0 where
  non_delivery partial_delivery overcharge quality : DisputeType

pub data ResolutionLayer : Type 0 where
  pending auto governance : ResolutionLayer

pub record EscrowAccountV2 : Type 0 where
  pub bump : ℕ
  pub version : ℕ
  pub agent : Pubkey
  pub depositor : Pubkey
  pub agent_wallet : Pubkey
  pub escrow_nonce : ℕ
  pub balance : ℕ
  pub total_deposited : ℕ
  pub total_settled : ℕ
  pub total_calls_settled : ℕ
  pub price_per_call : ℕ
  pub max_calls : ℕ
  pub created_at : ℤ
  pub last_settled_at : ℤ
  pub expires_at : ℤ
  pub volume_curve : List VolumeCurveBreakpoint
  pub token_mint : Option Pubkey
  pub token_decimals : ℕ
  pub settlement_security : SettlementSecurity
  pub dispute_window_slots : ℕ
  pub settlement_index : ℕ
  pub co_signer : Option Pubkey
  pub arbiter : Option Pubkey
  pub pending_amount : ℕ
  pub pending_calls : ℕ
  pub receipt_batch_count : ℕ
  pub dispute_bond_total : ℕ
  pub max_obligation : ℕ
  pub pending_settlement_count : ℕ

abbrev pub version_2 : ℕ
version_2 = 2

abbrev pub max_volume_curve : ℕ
max_volume_curve = 5

abbrev pub max_calls_per_settlement : ℕ
max_calls_per_settlement = 10000

abbrev pub max_receipt_proofs : ℕ
max_receipt_proofs = 100

abbrev pub max_merkle_depth : ℕ
max_merkle_depth = 32

pub record ReceiptBatch : Type 0 where
  pub bump : ℕ
  pub escrow : Pubkey
  pub batch_index : ℕ
  pub merkle_root : Hash
  pub call_count : ℕ
  pub period_start : ℤ
  pub period_end : ℤ
  pub inscribed_at : ℤ

pub record PendingSettlement : Type 0 where
  pub bump : ℕ
  pub escrow : Pubkey
  pub agent : Pubkey
  pub agent_wallet : Pubkey
  pub depositor : Pubkey
  pub settlement_index : ℕ
  pub calls_to_settle : ℕ
  pub amount : ℕ
  pub service_hash : Hash
  pub receipt_merkle_root : Hash
  pub created_at : ℤ
  pub release_slot : ℕ
  pub is_finalized : Bool
  pub is_disputed : Bool
  pub outcome : DisputeOutcome

pub record DisputeRecord : Type 0 where
  pub bump : ℕ
  pub pending_settlement : Pubkey
  pub escrow : Pubkey
  pub depositor : Pubkey
  pub agent : Pubkey
  pub dispute_type : DisputeType
  pub evidence_hash : Hash
  pub agent_evidence_hash : Hash
  pub outcome : DisputeOutcome
  pub resolution_layer : ResolutionLayer
  pub created_at : ℤ
  pub resolved_at : ℤ
  pub resolution_hash : Hash
  pub slash_amount : ℕ
  pub dispute_bond : ℕ
  pub proven_calls : ℕ
  pub claimed_calls : ℕ
  pub proof_deadline : ℤ
