-- ===== src/Pricing/Chunks.antt =====
-- The loop of `calculate_settle_amount` prices the calls in chunks; it comes to the sum of the
-- prices call by call, on every curve, sorted or not.
use synapse_sap.Common.{
  ℕ, zero, suc, ◌+◌, ◌-◌, ◌*◌, ◌≤◌, ◌<◌, ◌≡◌, refl, inl, inr, none, some, List, [], ◌∷◌, ap, ◌∙◌,
  min, arith, Option-cases,
}
use native.Mathlib.Nat.{zero-add}
use synapse_sap.Errors.{sap, arithmetic_overflow}
use synapse_sap.Checked.{u64_max, fits}
use synapse_sap.State.{VolumeCurveBreakpoint}
use synapse_sap.Pricing.{scan_curve, calls_at_price, settle_loop, calculate_settle_amount}
use synapse_sap.Pricing.Reference.{price_of_call, total_price, total_price-add, total_price-const}

-- A threshold that the scan stops at is still ahead.
scan_curve_ahead :
    (curve : List VolumeCurveBreakpoint) (cursor p t : ℕ)
    → (scan_curve curve cursor p).1 ≡ some t
    → cursor < t
unfolding scan_curve
scan_curve_ahead [] cursor p t h = cc
scan_curve_ahead (bp ∷ curve) cursor p t h =
    ground (arith, scan_curve_ahead curve cursor bp.price_per_call t)

-- With no threshold ahead, every later call has the scanned price.
scan_curve_last :
    (curve : List VolumeCurveBreakpoint) (cursor p j : ℕ)
    → (scan_curve curve cursor p).1 ≡ none
    → cursor ≤ j
    → price_of_call p curve j ≡ (scan_curve curve cursor p).0
unfolding scan_curve price_of_call
scan_curve_last [] cursor p j h lo = refl
scan_curve_last (bp ∷ curve) cursor p j h lo =
    ground (arith, scan_curve_last curve cursor bp.price_per_call j)

-- Up to the threshold ahead, every call has the scanned price.
scan_curve_until :
    (curve : List VolumeCurveBreakpoint) (cursor p t j : ℕ)
    → (scan_curve curve cursor p).1 ≡ some t
    → cursor ≤ j
    → j < t
    → price_of_call p curve j ≡ (scan_curve curve cursor p).0
unfolding scan_curve price_of_call
scan_curve_until [] cursor p t j h lo hi = cc
scan_curve_until (bp ∷ curve) cursor p t j h lo hi =
    ground (arith, scan_curve_until curve cursor bp.price_per_call t j)

-- The size of a chunk: at least one call, no more than remain, and all at the scanned price.
module _ (base : ℕ) (curve : List VolumeCurveBreakpoint) (cursor r : ℕ) where
  abbrev chunk : ℕ
  chunk = calls_at_price (scan_curve curve cursor base).1 (suc r) cursor

  chunk_bounds : (1 ≤ chunk) × (chunk ≤ suc r)
  chunk_bounds = elim (Option-cases (scan_curve curve cursor base).1) [
    | inl e ↦ rw e (omega arith)
    | inr (t, e) ↦ rw e (omega (arith, scan_curve_ahead curve cursor base t e))
  ]

  chunk_price :
      (j : ℕ)
      → cursor ≤ j
      → j < cursor + chunk
      → price_of_call base curve j ≡ (scan_curve curve cursor base).0
  chunk_price j lo hi = elim (Option-cases (scan_curve curve cursor base).1) [
    | inl e ↦ scan_curve_last curve cursor base j e lo
    | inr (t, e) ↦
        let hi' : j < cursor + min (suc r) (t - cursor) = rw e at hi in
        scan_curve_until curve cursor base t j e lo (omega arith)
  ]

  -- The price of what remains, split at the end of the chunk.
  chunk_total :
      total_price base curve cursor (suc r)
      ≡ chunk * (scan_curve curve cursor base).0
        + total_price base curve (cursor + chunk) (suc r - chunk)
  chunk_total =
      let whole : suc r ≡ chunk + (suc r - chunk) = omega (arith, chunk_bounds) in
      ap (λ n. total_price base curve cursor n) whole
      ∙ total_price-add base curve cursor chunk (suc r - chunk)
      ∙ ap (λ x. x + total_price base curve (cursor + chunk) (suc r - chunk))
          (total_price-const base curve (scan_curve curve cursor base).0 cursor chunk chunk_price)

-- From any point of the loop, with a round of fuel for each call that remains: the sum so far and
-- the price of the remaining calls if that fits a u64, and the overflow error if not.
settle_loop-eq :
    (fuel base : ℕ) (curve : List VolumeCurveBreakpoint) (amount remaining cursor : ℕ)
    → remaining ≤ fuel
    → amount ≤ u64_max
    → cursor + remaining ≤ u64_max
    → settle_loop fuel base curve amount remaining cursor
      ≡ fits u64_max (amount + total_price base curve cursor remaining) (sap arithmetic_overflow)
unfolding settle_loop
settle_loop-eq zero base curve amount zero cursor f a c = unfold total_price in ground arith
settle_loop-eq zero base curve amount (suc r) cursor f a c = absurd (omega arith)
settle_loop-eq (suc fuel) base curve amount zero cursor f a c = unfold total_price in ground arith
settle_loop-eq (suc fuel) base curve amount (suc r) cursor f a c =
    let n = chunk base curve cursor r in
    let price = (scan_curve curve cursor base).0 in
    let rest = total_price base curve (cursor + n) (suc r - n) in
    rw (chunk_total base curve cursor r) (
      ground (
        arith,
        chunk_bounds base curve cursor r,
        settle_loop-eq fuel base curve (amount + n * price) (suc r - n) (cursor + n),
      ))

-- `calculate_settle_amount` is the sum of the prices of the calls, one by one, whenever the call
-- counter fits a u64: it succeeds exactly if that sum fits a u64, and otherwise reports
-- `ArithmeticOverflow`. In particular the loop ends, on every curve.
pub calculate_settle_amount-eq :
    (base : ℕ) (curve : List VolumeCurveBreakpoint) (total_before calls : ℕ)
    → total_before + calls ≤ u64_max
    → calculate_settle_amount base curve total_before calls
      ≡ fits u64_max (total_price base curve total_before calls) (sap arithmetic_overflow)
unfolding calculate_settle_amount
calculate_settle_amount-eq base [] total_before calls h =
    rw (total_price-const base [] base total_before calls (λ j lo hi. unfold price_of_call in refl))
calculate_settle_amount-eq base (bp ∷ curve) total_before calls h =
    settle_loop-eq calls base (bp ∷ curve) 0 calls total_before (omega arith) (omega arith) h
    ∙ rw zero-add
