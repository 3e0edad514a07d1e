-- ===== src/Tests/Receipt.antt =====
-- Resolutions of disputes at concrete numbers.
use synapse_sap.Common.{◌≡◌, ◌≢◌, ◌⊎◌, ◌+◌, ◌-◌, ◌*◌, ◌/◌, refl, true, false, arith}
use synapse_sap.Errors.{ok}
use synapse_sap.State.{DisputeType, DisputeOutcome}
use synapse_sap.Receipt.Resolve.{Resolution, determine_dispute_resolution}
use synapse_sap.Receipt.Outcome.{resolution_conserves, resolution-IsFair}

-- Seven of nine calls of a thousand lamports.
abbrev seven_of_nine : Resolution
seven_of_nine = record {
  outcome = DisputeOutcome.partial_refund;
  agent_amount = 777;
  depositor_amount = 223;
}

partly_proven :
    determine_dispute_resolution DisputeType.partial_delivery 7 9 false 1000 ≡ ok seven_of_nine
unfolding determine_dispute_resolution
partly_proven = refl

resolution_conserves_example :
    (777 + 223 ≡ 1000)
    × ((DisputeOutcome.partial_refund ≢ DisputeOutcome.depositor_wins)
        ⊎ (seven_of_nine.agent_amount ≡ 0))
    × ((DisputeOutcome.partial_refund ≢ DisputeOutcome.agent_wins)
        ⊎ (seven_of_nine.depositor_amount ≡ 0))
resolution_conserves_example =
    resolution_conserves DisputeType.partial_delivery 7 9 false 1000 partly_proven

resolution-IsFair_example :
    (r : Resolution) × (determine_dispute_resolution DisputeType.overcharge 7 9 true 1000 ≡ ok r)
    × (r.agent_amount ≡ 1000 * 7 / 9)
    × (r.depositor_amount ≡ 1000 - 1000 * 7 / 9)
resolution-IsFair_example =
    resolution-IsFair DisputeType.overcharge 7 9 1000 refl (omega arith) (omega arith) (omega arith)
