-- ===== src/Escrow/Coverage.antt =====
-- The collateral behind an escrow, the cap on its deposits, and what a withdrawal leaves.
use synapse_sap.Common.{
  ℕ, ◌+◌, ◌-◌, ◌*◌, ◌/◌, ◌≤◌, ◌<◌, ◌≡◌, ◌≢◌, true, arith, min, max, if◌then◌else◌, ◌==◌,
}
use synapse_sap.Errors.{ok}
use synapse_sap.State.{AgentStats, EscrowAccountV2, SettlementSecurity, validate_price, min_stake}
use synapse_sap.Runtime.{Runtime, Bank, Clock}
use synapse_sap.Escrow.Create.{CreateAccounts, CreateArgs, create_terms, create_escrow_v2}
use synapse_sap.Escrow.Deposit.{DepositAccounts, deposit_escrow_v2, check_obligation, book_deposit}
use synapse_sap.Escrow.Withdraw.{
  WithdrawAccounts, withdraw_escrow_v2, withdraw_amount, book_withdrawn,
}

-- What a created escrow is backed by: a stake of half of its obligation and at least the minimum, an
-- obligation that is the most that its calls can cost or the deposit of an escrow without a cap on
-- its calls, a mode that is not self-report, and a positive price that the agent has published.
pub record IsBacked (a : CreateAccounts) (args : CreateArgs) (potential : ℕ)
    (security : SettlementSecurity) : Type 0 where
  pub stake : max (potential / 2) min_stake ≤ a.agent_stake.staked_amount
  pub obligation :
      potential
      ≡ (if args.max_calls == 0 then args.initial_deposit else args.price_per_call * args.max_calls)
  pub no_self_report : security ≢ SettlementSecurity.self_report
  pub priced : 0 < args.price_per_call
  pub published : validate_price a.pricing_menu args.token_mint args.price_per_call ≡ true

create-terms :
    (rt : Runtime) (a : CreateAccounts) (args : CreateArgs) (clock : Clock) (bank bank' : Bank)
    (e : EscrowAccountV2) (stats : AgentStats)
    → create_escrow_v2 rt a args clock bank ≡ ok (e, stats, bank')
    → (create_terms a args clock ≡ ok (e.max_obligation, e.settlement_security))
      × (e.max_calls ≡ args.max_calls)
      × (e.balance ≡ args.initial_deposit)
unfolding create_escrow_v2
create-terms rt a args clock bank bank' e stats h = (ground arith, ground arith, ground arith)

create_terms-IsBacked :
    (a : CreateAccounts) (args : CreateArgs) (clock : Clock) (potential : ℕ)
    (security : SettlementSecurity)
    → create_terms a args clock ≡ ok (potential, security)
    → IsBacked a args potential security
unfolding create_terms
create_terms-IsBacked a args clock potential security h = record {
  stake = ground arith;
  obligation = ground arith;
  no_self_report = ground arith;
  priced = ground arith;
  published = ground arith;
}

-- Every escrow that `create_escrow_v2` opens is backed: it records as its obligation the price of
-- all its calls, or its initial deposit where the calls have no cap; the agent has staked half of
-- that, and at least the minimum stake; its mode is not self-report, and its price is positive and
-- on the agent's price list. Its balance is the initial deposit.
pub create_escrow_v2-IsBacked :
    (rt : Runtime) (a : CreateAccounts) (args : CreateArgs) (clock : Clock) (bank bank' : Bank)
    (e : EscrowAccountV2) (stats : AgentStats)
    → create_escrow_v2 rt a args clock bank ≡ ok (e, stats, bank')
    → IsBacked a args e.max_obligation e.settlement_security × (e.balance ≡ args.initial_deposit)
create_escrow_v2-IsBacked rt a args clock bank bank' e stats h =
    let (terms, capped, held) = create-terms rt a args clock bank bank' e stats h in
    (create_terms-IsBacked a args clock e.max_obligation e.settlement_security terms, held)

-- A deposit into an escrow that records an obligation leaves the balance within it, and adds what
-- was deposited to the balance and to the total of deposits.
pub deposit_within_obligation :
    (rt : Runtime) (a : DepositAccounts) (nonce amount : ℕ) (clock : Clock) (bank bank' : Bank)
    (e : EscrowAccountV2)
    → deposit_escrow_v2 rt a nonce amount clock bank ≡ ok (e, bank')
    → 0 < a.escrow.max_obligation
    → (e.balance ≤ e.max_obligation)
      × (e.balance ≡ a.escrow.balance + amount)
      × (e.total_deposited ≡ a.escrow.total_deposited + amount)
unfolding deposit_escrow_v2 check_obligation book_deposit
deposit_within_obligation rt a nonce amount clock bank bank' e h pos = ground arith

-- An escrow opened with no cap on its calls and no initial deposit has no cap on its deposits: the
-- check of a deposit against the obligation accepts every amount.
pub unlimited_uncapped :
    (rt : Runtime) (a : CreateAccounts) (args : CreateArgs) (clock : Clock) (bank bank' : Bank)
    (e : EscrowAccountV2) (stats : AgentStats)
    → create_escrow_v2 rt a args clock bank ≡ ok (e, stats, bank')
    → args.max_calls ≡ 0
    → args.initial_deposit ≡ 0
    → (amount : ℕ) → check_obligation e amount ≡ ok tt
unfolding check_obligation
unlimited_uncapped rt a args clock bank bank' e stats h unlimited empty amount =
    let (terms, capped, held) = create-terms rt a args clock bank bank' e stats h in
    let backed = create_terms-IsBacked a args clock e.max_obligation e.settlement_security terms in
    ground (arith, backed.obligation)

-- A withdrawal takes what was asked for, or all that no pending settlement has locked where that is
-- less; it takes something only if something is free, and leaves the locked amount in the balance.
pub withdraw_leaves_pending :
    (rt : Runtime) (a : WithdrawAccounts) (amount : ℕ) (bank bank' : Bank) (e : EscrowAccountV2)
    → withdraw_escrow_v2 rt a amount bank ≡ ok (e, bank')
    → (e.balance + min amount (a.escrow.balance - a.escrow.pending_amount) ≡ a.escrow.balance)
      × (a.escrow.pending_amount < a.escrow.balance)
      × (e.pending_amount ≤ e.balance)
      × (e.pending_amount ≡ a.escrow.pending_amount)
unfolding withdraw_escrow_v2 withdraw_amount book_withdrawn
withdraw_leaves_pending rt a amount bank bank' e h = ground arith
