-- ===== src/Escrow/Withdraw.antt =====
-- instructions/escrow_v2.rs: `withdraw_escrow_v2` and `close_escrow_v2`.
use synapse_sap.Common.{ℕ, some, List, ltb, ◌==◌, if◌then◌else◌, is_some, min}
use synapse_sap.Errors.{
  Result, ok, require, constraint, ◌>>=◌, ◌>>◌, constraint_seeds, constraint_has_one,
  insufficient_escrow_balance, escrow_empty, arithmetic_overflow, escrow_not_empty,
  settlement_not_pending, pending_settlement_exists, active_escrow_counter_underflow,
}
use synapse_sap.Checked.{checked_sub_u64}
use synapse_sap.State.{Pubkey, AgentStats, EscrowAccountV2}
use synapse_sap.Runtime.{Runtime, Bank, AccountInfo, Clock, move_lamports}
use synapse_sap.Seeds.{stats_seeds, escrow_seeds, at_address, at_bump}
use synapse_sap.Token.{spl_transfer_from_escrow_v2}

pub record WithdrawAccounts : Type 0 where
  pub depositor : Pubkey
  pub escrow_key : Pubkey
  pub escrow : EscrowAccountV2
  pub remaining : List AccountInfo

-- What a withdrawal takes: the amount asked for, or all that no pending settlement has locked.
unfoldable pub withdraw_amount : EscrowAccountV2 → ℕ → Result ℕ
withdraw_amount e amount = do
  available ← checked_sub_u64 e.balance e.pending_amount insufficient_escrow_balance
  require (ltb 0 available) escrow_empty
  ok (min amount available)

unfoldable pub book_withdrawn : ℕ → EscrowAccountV2 → Result EscrowAccountV2
book_withdrawn amount e = do
  balance' ← checked_sub_u64 e.balance amount arithmetic_overflow
  ok (record e { balance = balance' })

module _ (rt : Runtime) where
  unfoldable pub withdraw_constraints : WithdrawAccounts → Result (Unit {0})
  withdraw_constraints accounts = do
    let e = accounts.escrow
    constraint
        (at_bump rt (escrow_seeds e.agent accounts.depositor e.escrow_nonce) e.bump
          accounts.escrow_key)
        constraint_seeds
    constraint (e.depositor == accounts.depositor) constraint_has_one

  unfoldable pub pay_withdrawn : WithdrawAccounts → ℕ → Bank → Result Bank
  pay_withdrawn accounts amount bank =
      if is_some accounts.escrow.token_mint
      then spl_transfer_from_escrow_v2 rt accounts.escrow_key accounts.escrow accounts.remaining
          amount (some accounts.escrow.depositor) bank
      else move_lamports accounts.escrow_key accounts.depositor amount bank

  unfoldable pub withdraw_escrow_v2 : WithdrawAccounts → ℕ → Bank → Result (EscrowAccountV2 × Bank)
  unfolding withdraw_constraints pay_withdrawn
  withdraw_escrow_v2 accounts amount bank = do
    withdraw_constraints accounts
    taken ← withdraw_amount accounts.escrow amount
    bank₁ ← pay_withdrawn accounts taken bank
    e ← book_withdrawn taken accounts.escrow
    ok (e, bank₁)

pub record CloseEscrowAccounts : Type 0 where
  pub depositor : Pubkey
  pub escrow_key : Pubkey
  pub escrow : EscrowAccountV2
  pub agent_stats_key : Pubkey
  pub agent_stats : AgentStats

-- The constraints on the contents of an escrow that is closed.
unfoldable pub check_closable : EscrowAccountV2 → Result (Unit {0})
check_closable e = do
  require (e.balance == 0) escrow_not_empty
  require (e.pending_amount == 0) settlement_not_pending
  require (e.pending_settlement_count == 0) pending_settlement_exists

unfoldable pub close_stats : Clock → AgentStats → Result AgentStats
close_stats clock stats = do
  n ← checked_sub_u64 stats.active_escrows 1 active_escrow_counter_underflow
  ok (record stats { active_escrows = n; updated_at = clock.unix_timestamp })

module _ (rt : Runtime) where
  unfoldable pub close_constraints : CloseEscrowAccounts → Result (Unit {0})
  close_constraints accounts = do
    let e = accounts.escrow
    constraint
        (at_bump rt (escrow_seeds e.agent accounts.depositor e.escrow_nonce) e.bump
          accounts.escrow_key)
        constraint_seeds
    constraint (e.depositor == accounts.depositor) constraint_has_one
    check_closable e
    constraint (at_address rt (stats_seeds e.agent) accounts.agent_stats_key) constraint_seeds

  -- The escrow's account is gone afterwards; its lamports are the depositor's.
  unfoldable pub close_escrow_v2 : CloseEscrowAccounts → Clock → Bank → Result (AgentStats × Bank)
  close_escrow_v2 accounts clock bank = do
    close_constraints accounts
    stats ← close_stats clock accounts.agent_stats
    bank₁ ← rt.close accounts.escrow_key accounts.depositor bank
    ok (stats, bank₁)
