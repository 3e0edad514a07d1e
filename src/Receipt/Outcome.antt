-- ===== src/Receipt/Outcome.antt =====
-- What `determine_dispute_resolution` decides: the split of a disputed amount.
use synapse_sap.Common.{
  ℕ, ◌+◌, ◌-◌, ◌*◌, ◌/◌, ◌%◌, ◌≤◌, ◌<◌, ◌≡◌, ◌≢◌, refl, sym, ◌⊎◌, inl, inr, Bool, true, false,
  arith, Bool-cases, ◌==◌, leb,
}
use native.Mathlib.Nat.{mod-eq_of_lt, div-le_of_le-mul, mul-div_cancel, zero-div, mul-zero}
use synapse_sap.Errors.{Result, ok}
use synapse_sap.Checked.{u64_max}
use synapse_sap.State.{DisputeType, DisputeOutcome}
use synapse_sap.Dispute.File.{type_is_quality}
use synapse_sap.Receipt.Resolve.{Resolution, determine_dispute_resolution, partial_refund}

-- Whatever is decided, the two shares add up to the disputed amount; where the depositor wins the
-- agent gets nothing, and where the agent wins the depositor gets nothing.
pub resolution_conserves :
    (t : DisputeType) (proven claimed : ℕ) (late : Bool) (amount : ℕ) {r : Resolution}
    → determine_dispute_resolution t proven claimed late amount ≡ ok r
    → (r.agent_amount + r.depositor_amount ≡ amount)
      × ((r.outcome ≢ DisputeOutcome.depositor_wins) ⊎ (r.agent_amount ≡ 0))
      × ((r.outcome ≢ DisputeOutcome.agent_wins) ⊎ (r.depositor_amount ≡ 0))
unfolding determine_dispute_resolution
resolution_conserves t proven claimed late amount h = ground arith

share-le :
    (amount proven claimed : ℕ)
    → 0 < claimed
    → proven ≤ claimed
    → amount * proven / claimed ≤ amount
share-le amount proven claimed pos le = div-le_of_le-mul claimed (grind arith)

abbrev IsFair : ℕ → ℕ → ℕ → Result Resolution → Type 0
IsFair proven claimed amount decision =
    (r : Resolution) × (decision ≡ ok r)
    × (r.agent_amount ≡ amount * proven / claimed)
    × (r.depositor_amount ≡ amount - amount * proven / claimed)

partial_refund-IsFair :
    (proven claimed amount : ℕ)
    → 0 < claimed
    → proven ≤ claimed
    → amount ≤ u64_max
    → IsFair proven claimed amount (partial_refund proven claimed amount)
unfolding partial_refund
partial_refund-IsFair proven claimed amount c le fit =
    let share = amount * proven / claimed in
    let exact : share % 18446744073709551616 ≡ share =
      mod-eq_of_lt (omega (arith, share-le amount proven claimed c le)) in
    (
      record {
        outcome = DisputeOutcome.partial_refund;
        agent_amount = share;
        depositor_amount = amount - share;
      },
      ground (arith, exact, share-le amount proven claimed c le),
      refl,
      refl,
    )

-- Once the deadline has passed, a dispute that is not about quality, on some calls of which no more
-- than all are proven and an amount that is a u64, is always decided: the agent's share of the
-- amount is the proven part of the claimed calls, rounded down, and the depositor's share is the
-- rest.
pub resolution-IsFair :
    (t : DisputeType) (proven claimed amount : ℕ)
    → type_is_quality t ≡ false
    → 0 < claimed
    → proven ≤ claimed
    → amount ≤ u64_max
    → IsFair proven claimed amount (determine_dispute_resolution t proven claimed true amount)
unfolding determine_dispute_resolution
resolution-IsFair t proven claimed amount q c le fit = elim (Bool-cases (leb claimed proven)) [
  | inl all ↦
      let same : proven ≡ claimed = ground arith in
      let whole : amount * proven / claimed ≡ amount = rw same (mul-div_cancel amount c) in
      (
        record { outcome = DisputeOutcome.agent_wins; agent_amount = amount; depositor_amount = 0 },
        ground arith,
        sym whole,
        ground (arith, whole),
      )
  | inr some_missing ↦ elim (Bool-cases (proven == 0)) [
    | inl none_proven ↦
        let zero_proven : proven ≡ 0 = ground arith in
        let nothing : amount * proven / claimed ≡ 0 =
          rw zero_proven (rw mul-zero (zero-div claimed)) in
        (
          record {
            outcome = DisputeOutcome.depositor_wins;
            agent_amount = 0;
            depositor_amount = amount;
          },
          ground arith,
          sym nothing,
          ground (arith, nothing),
        )
    | inr some_proven ↦
        let (r, e, a, d) = partial_refund-IsFair proven claimed amount c le fit in
        (r, ground (arith, e), a, d)
  ]
]

-- Before the deadline a decision needs at least one proven call, and in a dispute about quality it
-- can only be that the agent wins.
pub resolution_early :
    (t : DisputeType) (proven claimed amount : ℕ) {r : Resolution}
    → determine_dispute_resolution t proven claimed false amount ≡ ok r
    → (0 < proven) × ((type_is_quality t ≡ false) ⊎ (r.outcome ≡ DisputeOutcome.agent_wins))
unfolding determine_dispute_resolution
resolution_early t proven claimed amount h = ground arith
