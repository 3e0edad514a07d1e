-- ===== src/Validator/Checks.antt =====
-- validator.rs: its functions, apart from `validate_payment_token`, which stands with the escrows.
-- A `str` is its bytes.
use synapse_sap.Common.{
  ℕ, Bool, true, false, not, ◌&&◌, Option, none, some, List, [], ◌∷◌, leb, ltb, ◌==◌, if◌then◌else◌,
  length, is_some, bytes_eq,
}
use mathlib.Core.Option
use synapse_sap.Errors.{
  SapError, Result, ok, err, sap, require, ◌>>◌, empty_name, name_too_long, control_char_in_name,
  empty_description, description_too_long, agent_id_too_long, invalid_capability_format,
  too_many_capabilities, duplicate_capability, too_many_volume_curve_points, invalid_volume_curve,
  volume_curve_not_descending, empty_tier_id, invalid_rate_limit, spl_requires_token_mint,
  min_price_exceeds_max, too_many_pricing_tiers, duplicate_tier_id, uri_too_long,
  invalid_x402_endpoint, invalid_uptime_percent, too_many_protocols,
}
use synapse_sap.State.{
  Bytes, Capability, VolumeCurveBreakpoint, PricingTier, TokenType, max_name_len, max_desc_len,
  max_uri_len, max_agent_id_len, max_capabilities, max_pricing_tiers, max_protocols,
  max_volume_curve_points,
}

-- `b < 0x20` of some byte.
abbrev any_control : Bytes → Bool
any_control [] = false
any_control (b ∷ bs) = if ltb b 32 then true else any_control bs

unfoldable pub validate_name : Bytes → Result (Unit {0})
validate_name name = do
  require (ltb 0 (length name)) empty_name
  require (leb (length name) max_name_len) name_too_long
  require (not (any_control name)) control_char_in_name

unfoldable pub validate_description : Bytes → Result (Unit {0})
validate_description desc = do
  require (ltb 0 (length desc)) empty_description
  require (leb (length desc) max_desc_len) description_too_long

unfoldable pub validate_agent_id : Bytes → Result (Unit {0})
validate_agent_id agent_id = require (leb (length agent_id) max_agent_id_len) agent_id_too_long

-- `id.find(':')`, with what stands before it and after it.
unfoldable pub split_colon : Bytes → Option (Bytes × Bytes)
split_colon [] = none
split_colon (b ∷ bs) =
    if b == 58
    then some ([], bs)
    else Option.map (λ halves. (b ∷ halves.0, halves.1)) (split_colon bs)

abbrev format_of : Option (Bytes × Bytes) → Result (Unit {0})
format_of none = err (sap invalid_capability_format)
format_of (some (protocol, method)) =
    require (ltb 0 (length protocol) && ltb 0 (length method)) invalid_capability_format

unfoldable pub validate_capability_format : Bytes → Result (Unit {0})
validate_capability_format id = format_of (split_colon id)

-- `for other in caps.iter().skip(i + 1)`.
abbrev pub no_twin : Bytes → List Bytes → SapError → Result (Unit {0})
no_twin id [] e = ok tt
no_twin id (other ∷ rest) e = do require (not (bytes_eq id other)) e; no_twin id rest e

abbrev pub capability_ids : List Capability → List Bytes
capability_ids [] = []
capability_ids (c ∷ cs) = c.id ∷ capability_ids cs

unfoldable pub check_capabilities : List Capability → Result (Unit {0})
check_capabilities [] = ok tt
check_capabilities (cap ∷ rest) = do
  validate_capability_format cap.id
  no_twin cap.id (capability_ids rest) duplicate_capability
  check_capabilities rest

unfoldable pub validate_capabilities : List Capability → Result (Unit {0})
validate_capabilities caps = do
  require (leb (length caps) max_capabilities) too_many_capabilities
  check_capabilities caps

-- `for i in 1..curve.len()`.
unfoldable pub check_steps : List VolumeCurveBreakpoint → Result (Unit {0})
check_steps [] = ok tt
check_steps (p ∷ []) = ok tt
check_steps (p ∷ q ∷ rest) = do
  require (ltb p.after_calls q.after_calls) invalid_volume_curve
  require (leb q.price_per_call p.price_per_call) volume_curve_not_descending
  check_steps (q ∷ rest)

unfoldable pub validate_volume_curve : List VolumeCurveBreakpoint → Result (Unit {0})
validate_volume_curve curve = do
  require (leb (length curve) max_volume_curve_points) too_many_volume_curve_points
  check_steps curve

abbrev pub check_mint : PricingTier → TokenType → Result (Unit {0})
check_mint tier TokenType.spl = require (is_some tier.token_mint) spl_requires_token_mint
check_mint tier token_type = ok tt

abbrev pub check_range : Option ℕ → Option ℕ → Result (Unit {0})
check_range (some low) (some high) = require (leb low high) min_price_exceeds_max
check_range low high = ok tt

-- `if let Some(…) = … { validate(…)?; }`
abbrev pub if_some {ℓ} : {A : Type ℓ} → (A → Result (Unit {0})) → Option A → Result (Unit {0})
if_some validate none = ok tt
if_some validate (some a) = validate a

unfoldable pub validate_pricing_tier : PricingTier → Result (Unit {0})
validate_pricing_tier tier = do
  require (ltb 0 (length tier.tier_id)) empty_tier_id
  require (ltb 0 tier.rate_limit) invalid_rate_limit
  check_mint tier tier.token_type
  check_range tier.min_price_per_call tier.max_price_per_call
  if_some validate_volume_curve tier.volume_curve

abbrev pub tier_ids : List PricingTier → List Bytes
tier_ids [] = []
tier_ids (t ∷ ts) = t.tier_id ∷ tier_ids ts

unfoldable pub check_pricing : List PricingTier → Result (Unit {0})
check_pricing [] = ok tt
check_pricing (tier ∷ rest) = do
  validate_pricing_tier tier
  no_twin tier.tier_id (tier_ids rest) duplicate_tier_id
  check_pricing rest

unfoldable pub validate_pricing : List PricingTier → Result (Unit {0})
validate_pricing pricing = do
  require (leb (length pricing) max_pricing_tiers) too_many_pricing_tiers
  check_pricing pricing

abbrev starts_with : Bytes → Bytes → Bool
starts_with bs [] = true
starts_with [] (c ∷ cs) = false
starts_with (b ∷ bs) (c ∷ cs) = if b == c then starts_with bs cs else false

-- `"https://"`
abbrev https : Bytes
https = 104 ∷ 116 ∷ 116 ∷ 112 ∷ 115 ∷ 58 ∷ 47 ∷ 47 ∷ []

unfoldable pub validate_x402_endpoint : Bytes → Result (Unit {0})
validate_x402_endpoint endpoint = do
  require (leb (length endpoint) max_uri_len) uri_too_long
  require (starts_with endpoint https) invalid_x402_endpoint

unfoldable pub validate_uri : Bytes → Result (Unit {0})
validate_uri uri = require (leb (length uri) max_uri_len) uri_too_long

unfoldable pub validate_uptime_percent : ℕ → Result (Unit {0})
validate_uptime_percent pct = require (leb pct 100) invalid_uptime_percent

abbrev pub check_protocols : List Bytes → Result (Unit {0})
check_protocols protocols = require (leb (length protocols) max_protocols) too_many_protocols

unfoldable pub validate_registration :
    Bytes
    → Bytes
    → Option Bytes
    → List Capability
    → List PricingTier
    → List Bytes
    → Option Bytes
    → Option Bytes
    → Result (Unit {0})
validate_registration name description agent_id capabilities pricing protocols agent_uri
      x402_endpoint =
    do
      validate_name name
      validate_description description
      if_some validate_agent_id agent_id
      validate_capabilities capabilities
      validate_pricing pricing
      check_protocols protocols
      if_some validate_uri agent_uri
      if_some validate_x402_endpoint x402_endpoint

unfoldable pub validate_update :
    Option Bytes
    → Option Bytes
    → Option Bytes
    → Option (List Capability)
    → Option (List PricingTier)
    → Option (List Bytes)
    → Option Bytes
    → Option Bytes
    → Result (Unit {0})
validate_update name description agent_id capabilities pricing protocols agent_uri x402_endpoint =
    do
      if_some validate_name name
      if_some validate_description description
      if_some validate_agent_id agent_id
      if_some validate_capabilities capabilities
      if_some validate_pricing pricing
      if_some check_protocols protocols
      if_some validate_uri agent_uri
      if_some validate_x402_endpoint x402_endpoint
