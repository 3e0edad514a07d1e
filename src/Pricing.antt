-- ===== src/Pricing.antt =====
-- instructions/escrow_v2.rs: what a settlement costs. `calculate_settle_amount` walks the volume
-- curve in chunks of calls at one price; its loop takes fuel, and one round for each call is
-- enough, since every round prices at least one call.
pub mod Reference
pub mod Chunks
pub mod Discount
use synapse_sap.Common.{
  ℕ, zero, suc, ◌+◌, ◌-◌, ◌/◌, Option, none, some, List, [], ◌∷◌, leb, ◌==◌, if◌then◌else◌, min,
}
use synapse_sap.Errors.{Result, ok, err, out_of_fuel, ◌>>=◌}
use synapse_sap.Checked.{checked_add_u64, checked_mul_u64, add_u64, saturating_sub}
use synapse_sap.Constants.{protocol_fee_bps, bps_denominator}
use synapse_sap.State.{VolumeCurveBreakpoint}

unfoldable pub calculate_protocol_fee : ℕ → Result ℕ
calculate_protocol_fee amount = do
  v ← checked_mul_u64 amount protocol_fee_bps
  ok (v / bps_denominator)

-- The inner `for bp in curve`: the current price, and the first threshold not yet reached.
pub scan_curve : List VolumeCurveBreakpoint → ℕ → ℕ → ℕ × Option ℕ
scan_curve [] cursor current_price = (current_price, none)
scan_curve (bp ∷ curve) cursor current_price =
    if leb bp.after_calls cursor
    then scan_curve curve cursor bp.price_per_call
    else (current_price, some bp.after_calls)

abbrev pub calls_at_price : Option ℕ → ℕ → ℕ → ℕ
calls_at_price none remaining cursor = remaining
calls_at_price (some threshold) remaining cursor = min remaining (saturating_sub threshold cursor)

-- `while remaining > 0`. A chunk has at most `remaining` calls, so `remaining -=` is exact.
pub settle_loop : ℕ → ℕ → List VolumeCurveBreakpoint → ℕ → ℕ → ℕ → Result ℕ
settle_loop zero base_price curve amount remaining cursor =
    if remaining == 0 then ok amount else err out_of_fuel
settle_loop (suc fuel) base_price curve amount remaining cursor =
    let round = do
      let (current_price, next_threshold) = scan_curve curve cursor base_price
      let n = calls_at_price next_threshold remaining cursor
      due ← checked_mul_u64 n current_price
      amount' ← checked_add_u64 amount due
      cursor' ← add_u64 cursor n
      settle_loop fuel base_price curve amount' (remaining - n) cursor'
    in if remaining == 0 then ok amount else round

unfoldable pub calculate_settle_amount : ℕ → List VolumeCurveBreakpoint → ℕ → ℕ → Result ℕ
unfolding settle_loop scan_curve
calculate_settle_amount base_price [] total_before calls = checked_mul_u64 calls base_price
calculate_settle_amount base_price (bp ∷ curve) total_before calls =
    settle_loop calls base_price (bp ∷ curve) 0 calls total_before
