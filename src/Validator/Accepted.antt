-- ===== src/Validator/Accepted.antt =====
-- What the data of a registration is like that the checks accept.
use synapse_sap.Common.{
  ◌≤◌, ◌<◌, ◌≡◌, ◌≢◌, ap, Option, none, some, List, [], ◌∷◌, ◌++◌, length, ltb, bytes_eq,
  bytes_eq_refl, Option-cases, inl, inr, arith,
}
use synapse_sap.Errors.{
  ok, SapError, require, >>=-eq-ok, duplicate_capability, duplicate_tier_id, empty_tier_id,
  invalid_rate_limit,
}
use synapse_sap.State.{Bytes, Capability, VolumeCurveBreakpoint, PricingTier}
use synapse_sap.Validator.Checks.{
  validate_name, validate_description, validate_capability_format, split_colon, no_twin,
  capability_ids, check_capabilities, validate_capabilities, check_steps, validate_volume_curve,
  validate_pricing_tier, tier_ids, check_pricing, validate_pricing, validate_registration, if_some,
  check_mint, check_range, check_protocols, validate_agent_id,
}

-- A protocol and a method, neither of them empty, with a colon between them.
abbrev pub IsColoned : Bytes → Type 0
IsColoned id =
    (protocol : Bytes) × (method : Bytes) × (id ≡ protocol ++ 58 ∷ method)
    × (0 < length protocol)
    × (0 < length method)

abbrev pub IsNew : Bytes → List Bytes → Type 0
IsNew id [] = Unit {0}
IsNew id (other ∷ rest) = (id ≢ other) × IsNew id rest

abbrev pub IsFormed : List Capability → Type 0
IsFormed [] = Unit {0}
IsFormed (c ∷ cs) = IsColoned c.id × IsNew c.id (capability_ids cs) × IsFormed cs

-- Thresholds rise, prices do not.
abbrev pub IsStepped : List VolumeCurveBreakpoint → Type 0
IsStepped [] = Unit {0}
IsStepped (p ∷ []) = Unit {0}
IsStepped (p ∷ q ∷ rest) =
    (p.after_calls < q.after_calls) × (q.price_per_call ≤ p.price_per_call) × IsStepped (q ∷ rest)

abbrev pub IsCurve : Option (List VolumeCurveBreakpoint) → Type 0
IsCurve none = Unit {0}
IsCurve (some curve) = (length curve ≤ 5) × IsStepped curve

abbrev pub IsTiers : List PricingTier → Type 0
IsTiers [] = Unit {0}
IsTiers (t ∷ ts) =
    (0 < length t.tier_id)
    × (0 < t.rate_limit)
    × IsCurve t.volume_curve
    × IsNew t.tier_id (tier_ids ts)
    × IsTiers ts

no_twin-IsNew :
    (id : Bytes) (ids : List Bytes) (e : SapError) → no_twin id ids e ≡ ok tt → IsNew id ids
no_twin-IsNew id [] e h = tt
no_twin-IsNew id (other ∷ rest) e h = (
  λ same. ground (arith, bytes_eq_refl id, ap (bytes_eq id) same),
  no_twin-IsNew id rest e (ground arith),
)

split_colon-joins : (bs p m : Bytes) → split_colon bs ≡ some (p, m) → bs ≡ p ++ 58 ∷ m
unfolding split_colon
split_colon-joins [] p m h = cc
split_colon-joins (b ∷ bs) p m h = elim (Option-cases (split_colon bs)) [
  | inl missing ↦ ground arith
  | inr ((p', m'), at) ↦ ground (arith, split_colon-joins bs p' m' at)
]

validate_capability_format-IsColoned :
    (id : Bytes) → validate_capability_format id ≡ ok tt → IsColoned id
unfolding validate_capability_format
validate_capability_format-IsColoned id h = elim (Option-cases (split_colon id)) [
  | inl missing ↦ absurd (ground arith)
  | inr ((p, m), at) ↦ (p, m, split_colon-joins id p m at, ground arith, ground arith)
]

check_capabilities-IsFormed : (cs : List Capability) → check_capabilities cs ≡ ok tt → IsFormed cs
unfolding check_capabilities
check_capabilities-IsFormed [] h = tt
check_capabilities-IsFormed (c ∷ cs) h =
    let (_, f, h₁) = >>=-eq-ok (validate_capability_format c.id) _ h in
    let (_, n, h₂) = >>=-eq-ok (no_twin c.id (capability_ids cs) duplicate_capability) _ h₁ in
    (
      validate_capability_format-IsColoned c.id f,
      no_twin-IsNew c.id (capability_ids cs) duplicate_capability n,
      check_capabilities-IsFormed cs h₂,
    )

check_steps-IsStepped : (ps : List VolumeCurveBreakpoint) → check_steps ps ≡ ok tt → IsStepped ps
unfolding check_steps
check_steps-IsStepped [] h = tt
check_steps-IsStepped (p ∷ []) h = tt
check_steps-IsStepped (p ∷ q ∷ rest) h =
    (ground arith, ground arith, check_steps-IsStepped (q ∷ rest) (ground arith))

if_some-IsCurve :
    (curve : Option (List VolumeCurveBreakpoint))
    → if_some validate_volume_curve curve ≡ ok tt
    → IsCurve curve
unfolding validate_volume_curve
if_some-IsCurve none h = tt
if_some-IsCurve (some curve) h = (ground arith, check_steps-IsStepped curve (ground arith))

validate_pricing_tier-IsCurve :
    (t : PricingTier)
    → validate_pricing_tier t ≡ ok tt
    → (0 < length t.tier_id) × (0 < t.rate_limit) × IsCurve t.volume_curve
unfolding validate_pricing_tier
validate_pricing_tier-IsCurve t h =
    let (_, a, h₁) = >>=-eq-ok (require (ltb 0 (length t.tier_id)) empty_tier_id) _ h in
    let (_, b, h₂) = >>=-eq-ok (require (ltb 0 t.rate_limit) invalid_rate_limit) _ h₁ in
    let (_, _, h₃) = >>=-eq-ok (check_mint t t.token_type) _ h₂ in
    let (_, _, h₄) = >>=-eq-ok (check_range t.min_price_per_call t.max_price_per_call) _ h₃ in
    (ground arith, ground arith, if_some-IsCurve t.volume_curve h₄)

check_pricing-IsTiers : (ts : List PricingTier) → check_pricing ts ≡ ok tt → IsTiers ts
unfolding check_pricing
check_pricing-IsTiers [] h = tt
check_pricing-IsTiers (t ∷ ts) h =
    let (_, f, h₁) = >>=-eq-ok (validate_pricing_tier t) _ h in
    let (_, n, h₂) = >>=-eq-ok (no_twin t.tier_id (tier_ids ts) duplicate_tier_id) _ h₁ in
    let (named, limited, curve) = validate_pricing_tier-IsCurve t f in
    (
      named,
      limited,
      curve,
      no_twin-IsNew t.tier_id (tier_ids ts) duplicate_tier_id n,
      check_pricing-IsTiers ts h₂,
    )

-- A registration that is accepted has a name of 1 to 64 bytes and a description of 1 to 256; at most
-- 10 capabilities, each a protocol and a method that are not empty, with a colon between, and no two
-- the same; at most 5 tiers, each with a rate limit above zero, a volume curve of at most 5 points
-- whose thresholds rise and whose prices do not, and an identifier that is not empty, no two the
-- same; and at most 5 protocols.
pub validate_registration_accepts :
    (name description : Bytes) (agent_id : Option Bytes) (capabilities : List Capability)
    (pricing : List PricingTier) (protocols : List Bytes) (agent_uri x402_endpoint : Option Bytes)
    → validate_registration name description agent_id capabilities pricing protocols agent_uri
        x402_endpoint
      ≡ ok tt
    → (0 < length name)
      × (length name ≤ 64)
      × (0 < length description)
      × (length description ≤ 256)
      × (length capabilities ≤ 10)
      × IsFormed capabilities
      × (length pricing ≤ 5)
      × IsTiers pricing
      × (length protocols ≤ 5)
unfolding validate_registration validate_name validate_description validate_capabilities
    validate_pricing
validate_registration_accepts name description agent_id capabilities pricing protocols agent_uri
      x402_endpoint h =
    let (_, n, h₁) = >>=-eq-ok (validate_name name) _ h in
    let (_, d, h₂) = >>=-eq-ok (validate_description description) _ h₁ in
    let (_, _, h₃) = >>=-eq-ok (if_some validate_agent_id agent_id) _ h₂ in
    let (_, c, h₄) = >>=-eq-ok (validate_capabilities capabilities) _ h₃ in
    let (_, p, h₅) = >>=-eq-ok (validate_pricing pricing) _ h₄ in
    let (_, q, h₆) = >>=-eq-ok (check_protocols protocols) _ h₅ in
    (
      ground arith,
      ground arith,
      ground arith,
      ground arith,
      ground arith,
      check_capabilities-IsFormed capabilities (ground arith),
      ground arith,
      check_pricing-IsTiers pricing (ground arith),
      ground arith,
    )
