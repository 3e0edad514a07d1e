-- ===== src/Subscription/Billing.antt =====
-- instructions/subscription.rs: the computations of `claim_interval` and `cancel_subscription` on
-- the subscription's record.
use synapse_sap.Common.{ℕ, ◌/◌, ◌&&◌, ltb, ◌==◌, if◌then◌else◌, min}
use synapse_sap.Common.Int.{ℤ, pos, pos_part, ltb_ℤ, div_ℤ}
use synapse_sap.Errors.{
  Result, ok, err, sap, require, ◌>>=◌, ◌>>◌, no_interval_due, subscription_insufficient_balance,
  arithmetic_overflow, invalid_billing_interval,
}
use synapse_sap.Checked.{
  checked_add_u64, checked_sub_u64, checked_mul_u64, checked_add_u32, checked_add_i64,
  saturating_sub_i64, saturating_mul_u64, saturating_add_u64, saturating_add_u32, as_u32,
  as_u32_of_i64, mul_i64, u32_max,
}
use synapse_sap.State.{Subscription, BillingInterval, interval_seconds}
use synapse_sap.Runtime.{Clock}

-- The `match billing_interval`.
unfoldable pub parse_interval : ℕ → Result BillingInterval
parse_interval n =
    if n == 0
    then ok BillingInterval.daily
    else if n == 1
    then ok BillingInterval.weekly
    else if n == 2
    then ok BillingInterval.monthly
    else err (sap invalid_billing_interval)

-- The intervals that have ended since the last claim; an i64, which is negative before it.
unfoldable pub elapsed_intervals : Subscription → Clock → ℤ
elapsed_intervals sub clock =
    div_ℤ (saturating_sub_i64 clock.unix_timestamp sub.last_claimed_at)
      (interval_seconds sub.billing_interval)

-- The intervals that a claim is paid for, and their price.
pub record Claim : Type 0 where
  pub intervals : ℕ
  pub amount : ℕ

-- From `require!(claimable > 0)` on, `claimable` is the natural number `due`.
unfoldable pub claim_of : Subscription → ℕ → Result Claim
claim_of sub due = do
  require (ltb 0 due) no_interval_due
  total_due ← checked_mul_u64 due sub.price_per_interval
  let actual_payment = min total_due sub.balance
  let actual_intervals =
      if ltb 0 sub.price_per_interval
      then actual_payment / sub.price_per_interval
      else min due u32_max
  require (ltb 0 actual_intervals) subscription_insufficient_balance
  actual_amount ← checked_mul_u64 actual_intervals sub.price_per_interval
  ok (record { intervals = actual_intervals; amount = actual_amount })

unfoldable pub book_claim : Claim → Subscription → Result Subscription
book_claim c sub = do
  let secs = interval_seconds sub.billing_interval
  balance' ← checked_sub_u64 sub.balance c.amount arithmetic_overflow
  paid' ← checked_add_u64 sub.total_paid c.amount
  intervals' ← checked_add_u32 sub.intervals_paid (as_u32 c.intervals)
  span ← mul_i64 c.intervals secs
  claimed' ← checked_add_i64 sub.last_claimed_at span
  due' ← checked_add_i64 claimed' (pos secs)
  ok (record sub {
    balance = balance';
    total_paid = paid';
    intervals_paid = intervals';
    last_claimed_at = claimed';
    next_due_at = due';
  })

-- What a cancelled subscription owes the agent: the ended intervals, as far as the balance goes.
unfoldable pub earned_amount : Subscription → ℤ → ℕ
earned_amount sub earned =
    if ltb_ℤ (pos 0) earned && ltb 0 sub.price_per_interval
    then min (saturating_mul_u64 (pos_part earned) sub.price_per_interval) sub.balance
    else 0

unfoldable pub book_cancel : ℕ → ℤ → Clock → Subscription → Subscription
book_cancel earned_amount earned clock sub = record sub {
  cancelled_at = clock.unix_timestamp;
  total_paid = saturating_add_u64 sub.total_paid earned_amount;
  intervals_paid = saturating_add_u32 sub.intervals_paid (as_u32_of_i64 earned);
  balance = 0;
}
