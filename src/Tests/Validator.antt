-- ===== src/Tests/Validator.antt =====
-- Runs of the validator: a registration with two capabilities and one tier, and one that repeats a
-- capability.
use synapse_sap.Common.{ℕ, ◌≤◌, ◌<◌, ◌≡◌, refl, none, some, List, [], ◌∷◌, length}
use synapse_sap.Errors.{ok, err, sap, duplicate_capability}
use synapse_sap.State.{Bytes, Capability, PricingTier, TokenType}
use synapse_sap.Validator.Checks.{
  validate_name, validate_description, validate_capability_format, split_colon, check_capabilities,
  validate_capabilities, check_steps, validate_volume_curve, validate_pricing_tier, check_pricing,
  validate_pricing, validate_registration,
}
use synapse_sap.Validator.Accepted.{IsFormed, IsTiers, validate_registration_accepts}

abbrev capability : ℕ → Capability
capability n = record {
  id = 97 ∷ 58 ∷ n ∷ [];
  description = none;
  protocol_id = none;
  version = none;
}

abbrev tier : PricingTier
tier = record {
  tier_id = 98 ∷ [];
  price_per_call = 1000;
  min_price_per_call = some 1;
  max_price_per_call = some 2;
  rate_limit = 1;
  max_calls_per_session = 0;
  burst_limit = none;
  token_type = TokenType.sol;
  token_mint = none;
  token_decimals = some 9;
  settlement_mode = none;
  min_escrow_deposit = none;
  batch_interval_sec = none;
  volume_curve = some (
      record { after_calls = 5; price_per_call = 900 }
      ∷ record { after_calls = 9; price_per_call = 900 }
      ∷ []);
}

abbrev name : Bytes
name = 65 ∷ []

abbrev capabilities : List Capability
capabilities = capability 98 ∷ capability 99 ∷ []

abbrev tiers : List PricingTier
tiers = tier ∷ []

abbrev protocols : List Bytes
protocols = (97 ∷ []) ∷ []

accepted : validate_registration name name none capabilities tiers protocols none none ≡ ok tt
unfolding validate_registration validate_name validate_description validate_capability_format
    split_colon check_capabilities validate_capabilities check_steps validate_volume_curve
    validate_pricing_tier check_pricing validate_pricing
accepted = refl

repeated :
    validate_capabilities (capability 98 ∷ capability 98 ∷ []) ≡ err (sap duplicate_capability)
unfolding validate_capability_format split_colon check_capabilities validate_capabilities
repeated = refl

validate_registration_accepts_example :
    (0 < length name)
    × (length name ≤ 64)
    × (0 < length name)
    × (length name ≤ 256)
    × (length capabilities ≤ 10)
    × IsFormed capabilities
    × (length tiers ≤ 5)
    × IsTiers tiers
    × (length protocols ≤ 5)
validate_registration_accepts_example =
    validate_registration_accepts name name none capabilities tiers protocols none none accepted
