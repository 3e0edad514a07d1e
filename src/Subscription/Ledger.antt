-- ===== src/Subscription/Ledger.antt =====
-- The money of a subscription.
use synapse_sap.Common.{
  ℕ, ◌+◌, ◌-◌, ◌*◌, ◌≤◌, ◌<◌, ◌≡◌, refl, arith, min, ltb, Bool-cases, inl, inr, if◌then◌else◌, ◌==◌,
}
use native.Mathlib.Nat.{div-mul-le_self, div-le_of_le-mul}
use synapse_sap.Common.Int.{ℤ, pos, negsuc, pos_part}
use synapse_sap.Errors.{ok}
use synapse_sap.Checked.{u64_max}
use synapse_sap.State.{Pubkey, Subscription}
use synapse_sap.Runtime.{Runtime, Bank, Clock, move_lamports, move_lamports_lem}
use synapse_sap.Subscription.Billing.{
  elapsed_intervals, Claim, claim_of, book_claim, earned_amount, book_cancel,
}
use synapse_sap.Subscription.Handlers.{claim_interval, cancel_subscription, if_any}

-- A claim is for whole intervals that have ended, at the agreed price, within the balance.
claim_of_bounds :
    (sub : Subscription) (due : ℕ) (c : Claim)
    → claim_of sub due ≡ ok c
    → (c.amount ≡ c.intervals * sub.price_per_interval)
      × (0 < c.intervals)
      × (c.intervals ≤ due)
      × (c.amount ≤ sub.balance)
unfolding claim_of
claim_of_bounds sub due c h =
    let price = sub.price_per_interval in
    let paid = min (due * price) sub.balance in
    ground
      (arith, div-mul-le_self paid price, div-le_of_le-mul price {m = paid} {n = due} (grind arith))

claim_interval-booked :
    (rt : Runtime) (wallet key : Pubkey) (sub : Subscription) (clock : Clock) (bank bank' : Bank)
    (sub' : Subscription)
    → claim_interval rt wallet key sub clock bank ≡ ok (sub', bank')
    → (c : Claim) × (claim_of sub (pos_part (elapsed_intervals sub clock)) ≡ ok c)
      × (move_lamports key wallet c.amount bank ≡ ok bank')
      × (book_claim c sub ≡ ok sub')
unfolding claim_interval
claim_interval-booked rt wallet key sub clock bank bank' sub' h = ground arith

book_claim-balances :
    (c : Claim) (sub sub' : Subscription)
    → book_claim c sub ≡ ok sub'
    → (sub'.balance + c.amount ≡ sub.balance) × (sub'.total_paid ≡ sub.total_paid + c.amount)
unfolding book_claim
book_claim-balances c sub sub' h = ground arith

-- A claim that goes through pays for whole intervals that have ended since the last claim, at the
-- agreed price and within the balance; what the agent's wallet gains the subscription's account
-- loses, and what the balance loses is counted as paid.
pub claim_interval_pays :
    (rt : Runtime) (wallet key : Pubkey) (sub : Subscription) (clock : Clock) (bank bank' : Bank)
    (sub' : Subscription)
    → claim_interval rt wallet key sub clock bank ≡ ok (sub', bank')
    → (n : ℕ) × (0 < n)
      × (n ≤ pos_part (elapsed_intervals sub clock))
      × (sub'.balance + n * sub.price_per_interval ≡ sub.balance)
      × (sub'.total_paid ≡ sub.total_paid + n * sub.price_per_interval)
      × ((k : Pubkey)
          → bank'.lamports k + (if key == k then n * sub.price_per_interval else 0)
            ≡ bank.lamports k + (if wallet == k then n * sub.price_per_interval else 0))
claim_interval_pays rt wallet key sub clock bank bank' sub' h =
    let (c, claimed, moved, booked) =
      claim_interval-booked rt wallet key sub clock bank bank' sub' h in
    let bounds = claim_of_bounds sub (pos_part (elapsed_intervals sub clock)) c claimed in
    let sums = book_claim-balances c sub sub' booked in
    (
      c.intervals,
      bounds.1,
      bounds.2,
      ground (arith, bounds, sums),
      ground (arith, bounds, sums),
      λ k. rw (← bounds.0) (move_lamports_lem key wallet c.amount bank bank' k moved),
    )

pub earned_amount-le : (sub : Subscription) (earned : ℤ) → earned_amount sub earned ≤ sub.balance
unfolding earned_amount
earned_amount-le sub earned = ground arith

-- The price of the ended intervals, at most the balance.
earned_amount-eq :
    (sub : Subscription) (earned : ℤ)
    → earned_amount sub earned
      ≡ min (min (pos_part earned * sub.price_per_interval) u64_max) sub.balance
unfolding earned_amount
earned_amount-eq sub (pos n) = elim (Bool-cases (ltb 0 sub.price_per_interval)) [
  | inl priced ↦ ground arith
  | inr free ↦
      let z : sub.price_per_interval ≡ 0 = ground arith in
      let due : n * sub.price_per_interval ≡ 0 = rw z (omega arith) in ground (arith, due)
]
earned_amount-eq sub (negsuc n) = ground arith

if_any-moves :
    (from to amount : ℕ) (bank bank' : Bank) (k : Pubkey)
    → if_any amount (move_lamports from to amount) bank ≡ ok bank'
    → bank'.lamports k + (if from == k then amount else 0)
      ≡ bank.lamports k + (if to == k then amount else 0)
if_any-moves from to amount bank bank' k h =
    ground (arith, move_lamports_lem from to amount bank bank' k)

pub cancel-booked :
    (rt : Runtime) (subscriber wallet key : Pubkey) (sub : Subscription) (clock : Clock)
    (bank bank' : Bank) (sub' : Subscription)
    → cancel_subscription rt subscriber wallet key sub clock bank ≡ ok (sub', bank')
    → let pay = earned_amount sub (elapsed_intervals sub clock) in
      (between : Bank) × (if_any pay (move_lamports key wallet pay) bank ≡ ok between)
      × (if_any (sub.balance - pay) (move_lamports key subscriber (sub.balance - pay)) between
          ≡ ok bank')
      × (sub' ≡ book_cancel pay (elapsed_intervals sub clock) clock sub)
unfolding cancel_subscription
cancel-booked rt subscriber wallet key sub clock bank bank' sub' h = ground arith

-- A cancellation empties the balance to the last lamport: the agent's wallet gets the price of the
-- intervals that have ended, at most the balance and at most a u64, and the subscriber all the rest.
pub cancel_subscription_splits :
    (rt : Runtime) (subscriber wallet key : Pubkey) (sub : Subscription) (clock : Clock)
    (bank bank' : Bank) (sub' : Subscription)
    → cancel_subscription rt subscriber wallet key sub clock bank ≡ ok (sub', bank')
    → (pay : ℕ) × (pay ≡ earned_amount sub (elapsed_intervals sub clock))
      × (pay
          ≡ min
              (min (pos_part (elapsed_intervals sub clock) * sub.price_per_interval) u64_max)
              sub.balance)
      × (pay ≤ sub.balance)
      × (sub'.balance ≡ 0)
      × ((k : Pubkey)
          → bank'.lamports k + (if key == k then sub.balance else 0)
            ≡ bank.lamports k
              + ((if wallet == k then pay else 0)
                  + (if subscriber == k then sub.balance - pay else 0)))
cancel_subscription_splits rt subscriber wallet key sub clock bank bank' sub' h =
    let pay = earned_amount sub (elapsed_intervals sub clock) in
    let (between, paid, refunded, booked) =
      cancel-booked rt subscriber wallet key sub clock bank bank' sub' h in
    let within = earned_amount-le sub (elapsed_intervals sub clock) in
    (
      pay,
      refl,
      earned_amount-eq sub (elapsed_intervals sub clock),
      within,
      rw booked (unfold book_cancel in refl),
      λ k. ground (
        arith,
        within,
        if_any-moves key wallet pay bank between k paid,
        if_any-moves key subscriber (sub.balance - pay) between bank' k refunded,
      ),
    )
