-- ===== src/Pricing/Discount.antt =====
-- Volume discounts: on a curve whose prices do not rise, later calls are never dearer.
use synapse_sap.Common.{ℕ, zero, suc, ◌+◌, ◌*◌, ◌≤◌, ◌<◌, ◌≡◌, List, [], ◌∷◌, arith}
use synapse_sap.Errors.{ok}
use synapse_sap.Checked.{u64_max}
use synapse_sap.State.{VolumeCurveBreakpoint}
use synapse_sap.Pricing.{calculate_settle_amount, calculate_protocol_fee}
use synapse_sap.Pricing.Reference.{price_of_call, total_price}
use synapse_sap.Pricing.Chunks.{calculate_settle_amount-eq}

-- No price is above the one before it, the first not above the base price.
abbrev pub IsDiscount : ℕ → List VolumeCurveBreakpoint → Type 0
IsDiscount base [] = Unit {0}
IsDiscount base (bp ∷ curve) = (bp.price_per_call ≤ base) × IsDiscount bp.price_per_call curve

price_of_call-le :
    (base : ℕ) (curve : List VolumeCurveBreakpoint) (k : ℕ)
    → IsDiscount base curve
    → price_of_call base curve k ≤ base
unfolding price_of_call
price_of_call-le base [] k h = omega arith
price_of_call-le base (bp ∷ curve) k h =
    ground (arith, price_of_call-le bp.price_per_call curve k h.1)

price_of_call-anti :
    (base : ℕ) (curve : List VolumeCurveBreakpoint) (k j : ℕ)
    → IsDiscount base curve
    → k ≤ j
    → price_of_call base curve j ≤ price_of_call base curve k
unfolding price_of_call
price_of_call-anti base [] k j h le = omega arith
price_of_call-anti base (bp ∷ curve) k j h le = ground (
  arith,
  price_of_call-anti bp.price_per_call curve k j h.1,
  price_of_call-le bp.price_per_call curve j h.1,
)

total_price-anti :
    (base : ℕ) (curve : List VolumeCurveBreakpoint) (k j n : ℕ)
    → IsDiscount base curve
    → k ≤ j
    → total_price base curve j n ≤ total_price base curve k n
unfolding total_price
total_price-anti base curve k j zero h le = omega arith
total_price-anti base curve k j (suc n) h le = omega (
  arith,
  price_of_call-anti base curve k j h le,
  total_price-anti base curve (suc k) (suc j) n h (omega arith),
)

pub total_price-le :
    (base : ℕ) (curve : List VolumeCurveBreakpoint) (k n : ℕ)
    → IsDiscount base curve
    → total_price base curve k n ≤ n * base
unfolding total_price
total_price-le base curve k zero h = omega arith
total_price-le base curve k (suc n) h =
    omega (arith, price_of_call-le base curve k h, total_price-le base curve (suc k) n h)

-- On a curve whose prices start at or below the base price and never rise, where the call counter
-- fits a u64 and both amounts are computed, a settlement costs at most the base price for each
-- call, and the same number of calls settled later costs no more.
pub calculate_settle_amount_discount :
    (base : ℕ) (curve : List VolumeCurveBreakpoint) (early late calls x y : ℕ)
    → IsDiscount base curve
    → early ≤ late
    → late + calls ≤ u64_max
    → calculate_settle_amount base curve early calls ≡ ok x
    → calculate_settle_amount base curve late calls ≡ ok y
    → (y ≤ x) × (x ≤ calls * base)
calculate_settle_amount_discount base curve early late calls x y d le fit hx hy = ground (
  arith,
  calculate_settle_amount-eq base curve early calls (omega arith),
  calculate_settle_amount-eq base curve late calls fit,
  total_price-anti base curve early late calls d le,
  total_price-le base curve early calls d,
)

-- Where the protocol fee is computed, it is half a percent of the amount, rounded down.
pub calculate_protocol_fee_bounds :
    (amount fee : ℕ)
    → calculate_protocol_fee amount ≡ ok fee
    → (fee * 200 ≤ amount) × (amount < (fee + 1) * 200)
unfolding calculate_protocol_fee
calculate_protocol_fee_bounds amount fee h = ground arith
