-- ===== src/Escrow/Finalize.antt =====
-- instructions/escrow_v2.rs: `finalize_settlement`.
use synapse_sap.Common.{Bool, true, false, not, some, List, leb, ◌==◌, if◌then◌else◌, is_some}
use synapse_sap.Errors.{
  Result, ok, require, constraint, ◌>>=◌, ◌>>◌, constraint_seeds, constraint_raw,
  settlement_already_finalized, settlement_disputed, settlement_not_pending,
  dispute_window_not_expired, invalid_agent_wallet, arithmetic_overflow,
}
use synapse_sap.Checked.{checked_add_u64, checked_sub_u64, saturating_sub}
use synapse_sap.State.{Pubkey, AgentStats, EscrowAccountV2, PendingSettlement, DisputeOutcome}
use synapse_sap.Runtime.{Runtime, Bank, AccountInfo, Clock, move_lamports}
use synapse_sap.Seeds.{stats_seeds, escrow_seeds, pending_seeds, at_bump}
use synapse_sap.Token.{spl_transfer_from_escrow_v2}
use synapse_sap.Escrow.Settle.{count_calls}

pub record FinalizeAccounts : Type 0 where
  pub agent_wallet : Pubkey
  pub escrow_key : Pubkey
  pub escrow : EscrowAccountV2
  pub pending_key : Pubkey
  pub pending_settlement : PendingSettlement
  pub agent_stats_key : Pubkey
  pub agent_stats : AgentStats
  pub remaining : List AccountInfo

pub record Finalized : Type 0 where
  pub escrow : EscrowAccountV2
  pub pending_settlement : PendingSettlement
  pub agent_stats : AgentStats
  pub bank : Bank

abbrev pub outcome_is_pending : DisputeOutcome → Bool
outcome_is_pending DisputeOutcome.pending = true
outcome_is_pending _ = false

unfoldable pub book_finalized : PendingSettlement → Clock → EscrowAccountV2 → Result EscrowAccountV2
book_finalized ps clock e = do
  balance' ← checked_sub_u64 e.balance ps.amount arithmetic_overflow
  settled' ← checked_add_u64 e.total_settled ps.amount
  calls' ← checked_add_u64 e.total_calls_settled ps.calls_to_settle
  pending' ← checked_sub_u64 e.pending_amount ps.amount arithmetic_overflow
  pending_calls' ← checked_sub_u64 e.pending_calls ps.calls_to_settle arithmetic_overflow
  ok (record e {
    balance = balance';
    total_settled = settled';
    total_calls_settled = calls';
    pending_amount = pending';
    pending_calls = pending_calls';
    last_settled_at = clock.unix_timestamp;
    pending_settlement_count = saturating_sub e.pending_settlement_count 1;
  })

module _ (rt : Runtime) where
  unfoldable pub finalize_constraints : FinalizeAccounts → Result (Unit {0})
  finalize_constraints accounts = do
    let e = accounts.escrow
    let ps = accounts.pending_settlement
    constraint
        (at_bump rt (escrow_seeds e.agent e.depositor e.escrow_nonce) e.bump accounts.escrow_key)
        constraint_seeds
    constraint
        (at_bump rt (pending_seeds accounts.escrow_key ps.settlement_index) ps.bump
          accounts.pending_key)
        constraint_seeds
    constraint (ps.escrow == accounts.escrow_key) constraint_raw
    require (not ps.is_finalized) settlement_already_finalized
    require (not ps.is_disputed) settlement_disputed
    require (outcome_is_pending ps.outcome) settlement_not_pending
    constraint (at_bump rt (stats_seeds e.agent) accounts.agent_stats.bump accounts.agent_stats_key)
        constraint_seeds

  unfoldable pub pay_finalized : FinalizeAccounts → Bank → Result Bank
  pay_finalized accounts bank =
      if is_some accounts.escrow.token_mint
      then spl_transfer_from_escrow_v2 rt accounts.escrow_key accounts.escrow accounts.remaining
          accounts.pending_settlement.amount (some accounts.pending_settlement.agent_wallet) bank
      else move_lamports accounts.escrow_key accounts.agent_wallet
          accounts.pending_settlement.amount bank

  unfoldable pub finalize_settlement : FinalizeAccounts → Clock → Bank → Result Finalized
  finalize_settlement accounts clock bank = do
    finalize_constraints accounts
    let ps = accounts.pending_settlement
    require (leb ps.release_slot clock.slot) dispute_window_not_expired
    require (accounts.agent_wallet == ps.agent_wallet) invalid_agent_wallet
    bank₁ ← pay_finalized accounts bank
    e ← book_finalized ps clock accounts.escrow
    stats ← count_calls ps.calls_to_settle clock accounts.agent_stats
    ok (record {
      escrow = e;
      pending_settlement = record ps {
        is_finalized = true;
        outcome = DisputeOutcome.auto_released;
      };
      agent_stats = stats;
      bank = bank₁;
    })
