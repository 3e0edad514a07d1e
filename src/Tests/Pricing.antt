-- ===== src/Tests/Pricing.antt =====
-- Prices on a curve of one breakpoint: a thousand lamports for a call, half of that after fifty.
use synapse_sap.Common.{◌≡◌, ◌*◌, ◌≤◌, refl, List, [], ◌∷◌, arith}
use synapse_sap.Errors.{ok, sap, arithmetic_overflow}
use synapse_sap.Checked.{fits, u64_max}
use synapse_sap.State.{VolumeCurveBreakpoint}
use synapse_sap.Pricing.{calculate_settle_amount, calculate_protocol_fee}
use synapse_sap.Pricing.Reference.{total_price}
use synapse_sap.Pricing.Chunks.{calculate_settle_amount-eq}
use synapse_sap.Pricing.Discount.{calculate_settle_amount_discount}

abbrev curve : List VolumeCurveBreakpoint
curve = record { after_calls = 50; price_per_call = 500 } ∷ []

settle_early : calculate_settle_amount 1000 curve 40 20 ≡ ok 15000
unfolding calculate_settle_amount
settle_early = refl

settle_late : calculate_settle_amount 1000 curve 45 20 ≡ ok 12500
unfolding calculate_settle_amount
settle_late = refl

calculate_settle_amount-eq_example :
    calculate_settle_amount 1000 curve 40 20
    ≡ fits u64_max (total_price 1000 curve 40 20) (sap arithmetic_overflow)
calculate_settle_amount-eq_example = calculate_settle_amount-eq 1000 curve 40 20 (omega arith)

calculate_settle_amount_discount_example : (12500 ≤ 15000) × (15000 ≤ 20 * 1000)
calculate_settle_amount_discount_example =
    calculate_settle_amount_discount 1000 curve 40 45 20 15000 12500 (omega arith, tt) (omega arith)
      (omega arith) settle_early settle_late

fee_of_15000 : calculate_protocol_fee 15150 ≡ ok 75
unfolding calculate_protocol_fee
fee_of_15000 = refl
