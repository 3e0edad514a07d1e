-- ===== src/Pricing/Reference.antt =====
-- The price list of a settlement, call by call, and the loop of `calculate_settle_amount` against it.
use synapse_sap.Common.{
  ℕ, zero, suc, ◌+◌, ◌*◌, ◌≤◌, ◌<◌, ◌≡◌, List, [], ◌∷◌, leb, if◌then◌else◌, arith,
}
use native.Mathlib.Nat.{zero-add, add-zero, add-suc, suc-add}
use synapse_sap.State.{VolumeCurveBreakpoint}

-- The price of one call after `k` others: each breakpoint that `k` has reached sets a new price,
-- up to the first one that it has not.
unfoldable pub price_of_call : ℕ → List VolumeCurveBreakpoint → ℕ → ℕ
price_of_call base [] k = base
price_of_call base (bp ∷ curve) k =
    if leb bp.after_calls k then price_of_call bp.price_per_call curve k else base

-- The sum of the prices of `n` calls, one by one.
unfoldable pub total_price : ℕ → List VolumeCurveBreakpoint → ℕ → ℕ → ℕ
total_price base curve k zero = 0
total_price base curve k (suc n) = price_of_call base curve k + total_price base curve (suc k) n

-- The calls of two settlements in a row cost what they cost in one.
pub total_price-add :
    (base : ℕ) (curve : List VolumeCurveBreakpoint) (k n m : ℕ)
    → total_price base curve k (n + m)
      ≡ total_price base curve k n + total_price base curve (k + n) m
unfolding total_price
total_price-add base curve k zero m = rw (add-zero, zero-add, zero-add)
total_price-add base curve k (suc n) m =
    rw (suc-add, add-suc, ← suc-add) (omega (arith, total_price-add base curve (suc k) n m))

-- Where the next `n` calls have one price, they cost `n` times that price.
pub total_price-const :
    (base : ℕ) (curve : List VolumeCurveBreakpoint) (price k n : ℕ)
    → ((j : ℕ) → k ≤ j → j < k + n → price_of_call base curve j ≡ price)
    → total_price base curve k n ≡ n * price
unfolding total_price
total_price-const base curve price k zero same = omega arith
total_price-const base curve price k (suc n) same = rw (same k (omega arith) (omega arith)) (
    omega (
      arith,
      total_price-const base curve price (suc k) n (λ j lo hi. same j (omega arith) (omega arith)),
    ))
