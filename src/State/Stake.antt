-- ===== src/State/Stake.antt =====
-- state.rs: agent stakes and subscriptions.
use synapse_sap.Common.{ℕ, Option}
use synapse_sap.Common.Int.{ℤ, pos}
use synapse_sap.State.Agent.{Pubkey}

pub record AgentStake : Type 0 where
  pub bump : ℕ
  pub agent : Pubkey
  pub wallet : Pubkey
  pub staked_amount : ℕ
  pub slashed_amount : ℕ
  pub last_stake_at : ℤ
  pub unstake_requested_at : ℤ
  pub unstake_amount : ℕ
  pub unstake_available_at : ℤ
  pub total_disputes_won : ℕ
  pub total_disputes_lost : ℕ
  pub created_at : ℤ

abbrev pub min_stake : ℕ
min_stake = 100000000

abbrev pub unstake_cooldown_seconds : ℤ
unstake_cooldown_seconds = pos 604800

abbrev pub slash_bps : ℕ
slash_bps = 5000

abbrev pub proof_deadline_seconds : ℤ
proof_deadline_seconds = pos 604800

abbrev pub quality_dispute_bond_bps : ℕ
quality_dispute_bond_bps = 1000

abbrev pub stake_coverage_bps : ℕ
stake_coverage_bps = slash_bps

pub data BillingInterval : Type 0 where
  daily weekly monthly : BillingInterval

pub record Subscription : Type 0 where
  pub bump : ℕ
  pub agent : Pubkey
  pub subscriber : Pubkey
  pub agent_wallet : Pubkey
  pub sub_id : ℕ
  pub price_per_interval : ℕ
  pub billing_interval : BillingInterval
  pub token_mint : Option Pubkey
  pub token_decimals : ℕ
  pub balance : ℕ
  pub total_paid : ℕ
  pub intervals_paid : ℕ
  pub started_at : ℤ
  pub last_claimed_at : ℤ
  pub cancelled_at : ℤ
  pub next_due_at : ℤ
  pub created_at : ℤ

-- `Subscription::interval_seconds`, an i64 that is positive.
abbrev pub interval_seconds : BillingInterval → ℕ
interval_seconds BillingInterval.daily = 86400
interval_seconds BillingInterval.weekly = 604800
interval_seconds BillingInterval.monthly = 2592000
