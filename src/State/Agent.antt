-- ===== src/State/Agent.antt =====
-- state.rs: agents, their price list and their statistics.
use synapse_sap.Common.{
  ℕ, Bool, true, false, ◌||◌, ◌&&◌, Option, none, some, List, [], ◌∷◌, ◌==◌, opt_eq,
}
use synapse_sap.Common.Int.{ℤ}

abbrev pub Pubkey : Type 0
Pubkey = ℕ

abbrev pub Hash : Type 0
Hash = ℕ

abbrev pub Bytes : Type 0
Bytes = List ℕ

-- EPjFWdd5AufqSSqeM2qN1xzybapC8G4wEGGkZwyTDt1v
abbrev pub usdc_mainnet : Pubkey
usdc_mainnet = 0xc6fa7af3bedbad3a3d65f36aabc97431b1bbe4c2d2f6e0e47ca60203452f5d61

-- 4zMMC9srt5Ri5X14GAgXhaHii3GnPAEERYPJgZJDncDU
abbrev pub usdc_devnet : Pubkey
usdc_devnet = 0x3b442cb3912157f13a933d0134282d032b5ffecd01a2dbf1b7790608df002ea7

unfoldable pub is_accepted_usdc_mint : Pubkey → Bool
is_accepted_usdc_mint mint = mint == usdc_mainnet || mint == usdc_devnet

pub data TokenType : Type 0 where
  sol usdc spl : TokenType

pub data SettlementMode : Type 0 where
  instant escrow batched x402 : SettlementMode

pub record Capability : Type 0 where
  pub id : Bytes
  pub description : Option Bytes
  pub protocol_id : Option Bytes
  pub version : Option Bytes

pub record VolumeCurveBreakpoint : Type 0 where
  pub after_calls : ℕ
  pub price_per_call : ℕ

pub record PricingTier : Type 0 where
  pub tier_id : Bytes
  pub price_per_call : ℕ
  pub min_price_per_call : Option ℕ
  pub max_price_per_call : Option ℕ
  pub rate_limit : ℕ
  pub max_calls_per_session : ℕ
  pub burst_limit : Option ℕ
  pub token_type : TokenType
  pub token_mint : Option Pubkey
  pub token_decimals : Option ℕ
  pub settlement_mode : Option SettlementMode
  pub min_escrow_deposit : Option ℕ
  pub batch_interval_sec : Option ℕ
  pub volume_curve : Option (List VolumeCurveBreakpoint)

pub data PluginType : Type 0 where
  memory validation delegation analytics governance custom : PluginType

pub record PluginRef : Type 0 where
  pub plugin_type : PluginType
  pub pda : Pubkey

pub record AgentAccount : Type 0 where
  pub bump : ℕ
  pub version : ℕ
  pub wallet : Pubkey
  pub name : Bytes
  pub description : Bytes
  pub agent_id : Option Bytes
  pub agent_uri : Option Bytes
  pub x402_endpoint : Option Bytes
  pub is_active : Bool
  pub created_at : ℤ
  pub updated_at : ℤ
  pub reputation_score : ℕ
  pub total_feedbacks : ℕ
  pub reputation_sum : ℕ
  pub total_calls_served : ℕ
  pub avg_latency_ms : ℕ
  pub uptime_percent : ℕ
  pub capabilities : List Capability
  pub pricing : List PricingTier
  pub protocols : List Bytes
  pub active_plugins : List PluginRef

pub record AgentPricingMenu : Type 0 where
  pub bump : ℕ
  pub agent : Pubkey
  pub tiers : List PricingTier
  pub updated_at : ℤ

-- The `match` inside `validate_price`.
tier_accepts : Option Pubkey → TokenType → Option Pubkey → Bool
unfolding is_accepted_usdc_mint
tier_accepts none TokenType.sol own = true
tier_accepts (some mint) TokenType.usdc own = is_accepted_usdc_mint mint
tier_accepts (some mint) TokenType.spl own = opt_eq own (some mint)
tier_accepts _ _ own = false

any_tier : List PricingTier → Option Pubkey → ℕ → Bool
unfolding tier_accepts
any_tier [] token_mint price = false
any_tier (t ∷ ts) token_mint price =
    t.price_per_call == price && tier_accepts token_mint t.token_type t.token_mint
    || any_tier ts token_mint price

-- `AgentPricingMenu::validate_price`.
unfoldable pub validate_price : AgentPricingMenu → Option Pubkey → ℕ → Bool
unfolding any_tier
validate_price menu token_mint price = any_tier menu.tiers token_mint price

pub record AgentStats : Type 0 where
  pub bump : ℕ
  pub agent : Pubkey
  pub wallet : Pubkey
  pub total_calls_served : ℕ
  pub is_active : Bool
  pub active_escrows : ℕ
  pub updated_at : ℤ

-- The bounds of `AgentAccount`.
abbrev pub max_name_len : ℕ
max_name_len = 64

abbrev pub max_desc_len : ℕ
max_desc_len = 256

abbrev pub max_uri_len : ℕ
max_uri_len = 256

abbrev pub max_agent_id_len : ℕ
max_agent_id_len = 128

abbrev pub max_capabilities : ℕ
max_capabilities = 10

abbrev pub max_pricing_tiers : ℕ
max_pricing_tiers = 5

abbrev pub max_protocols : ℕ
max_protocols = 5

abbrev pub max_volume_curve_points : ℕ
max_volume_curve_points = 5
