-- ===== src/Escrow/Create.antt =====
-- instructions/escrow_v2.rs: `create_escrow_v2`.
use synapse_sap.Common.{
  ℕ, ◌*◌, ◌/◌, true, not, Option, none, some, List, [], ◌∷◌, leb, ltb, ◌==◌, if◌then◌else◌, is_some,
  length, max,
}
use synapse_sap.Common.Int.{ℤ, pos, ltb_ℤ}
use synapse_sap.Errors.{
  Result, ok, err, sap, require, constraint, ok_or, ◌>>=◌, ◌>>◌, constraint_seeds, agent_inactive,
  stake_agent_mismatch, agent_stake_required, arithmetic_overflow, stake_below_coverage,
  self_report_deprecated, co_signer_required, co_signer_is_agent_wallet,
  invalid_settlement_security, invalid_price_per_call, escrow_already_expired,
  too_many_volume_curve_points, invalid_volume_curve, volume_curve_not_descending,
  invalid_volume_curve_price, payment_token_not_allowed, invalid_payment_token,
  pricing_tier_not_found,
}
use synapse_sap.Checked.{checked_mul_u64, checked_add_u32, fits, u64_max}
use synapse_sap.State.{
  Pubkey, AgentAccount, AgentPricingMenu, AgentStats, AgentStake, EscrowAccountV2,
  VolumeCurveBreakpoint, SettlementSecurity, is_accepted_usdc_mint, validate_price, min_stake,
  stake_coverage_bps, version_2, max_volume_curve,
}
use synapse_sap.Runtime.{Runtime, Bank, AccountInfo, Clock}
use synapse_sap.Seeds.{stake_seeds, stats_seeds, pricing_seeds, escrow_seeds, at_address, at_bump}
use synapse_sap.Token.{spl_transfer_from_signer}

pub record CreateAccounts : Type 0 where
  pub depositor : Pubkey
  pub agent_key : Pubkey
  pub agent : AgentAccount
  pub agent_stake_key : Pubkey
  pub agent_stake : AgentStake
  pub agent_stats_key : Pubkey
  pub agent_stats : AgentStats
  pub pricing_menu_key : Pubkey
  pub pricing_menu : AgentPricingMenu
  pub escrow_key : Pubkey
  pub remaining : List AccountInfo

pub record CreateArgs : Type 0 where
  pub escrow_nonce : ℕ
  pub price_per_call : ℕ
  pub max_calls : ℕ
  pub initial_deposit : ℕ
  pub expires_at : ℤ
  pub volume_curve : List VolumeCurveBreakpoint
  pub token_mint : Option Pubkey
  pub token_decimals : ℕ
  pub settlement_security : ℕ
  pub dispute_window_slots : ℕ
  pub co_signer : Option Pubkey
  pub arbiter : Option Pubkey

-- The stake coverage: the most that the escrow can owe, and the stake that this takes.
unfoldable pub max_potential : ℕ → ℕ → ℕ → Result ℕ
max_potential max_calls price_per_call initial_deposit =
    if max_calls == 0 then ok initial_deposit else checked_mul_u64 price_per_call max_calls

-- The u128 product of two u64 cannot overflow.
unfoldable pub required_stake : ℕ → Result ℕ
required_stake potential = do
  coverage ← fits u64_max (potential * stake_coverage_bps / 10000) (sap arithmetic_overflow)
  ok (max coverage min_stake)

-- The `match settlement_security`.
unfoldable pub parse_security : CreateArgs → Pubkey → Result SettlementSecurity
parse_security args agent_wallet =
    if args.settlement_security == 0
    then err (sap self_report_deprecated)
    else if args.settlement_security == 1
    then (do
      signer ← ok_or args.co_signer co_signer_required
      require (not (signer == agent_wallet)) co_signer_is_agent_wallet
      ok SettlementSecurity.co_signed)
    else if args.settlement_security == 2
    then (do
      require (ltb 0 args.dispute_window_slots) invalid_settlement_security
      ok SettlementSecurity.dispute_window)
    else err (sap invalid_settlement_security)

-- The loop `for i in 1..volume_curve.len()`, from a breakpoint on.
unfoldable pub check_curve_from :
    VolumeCurveBreakpoint → List VolumeCurveBreakpoint → Result (Unit {0})
check_curve_from prev [] = ok tt
check_curve_from prev (bp ∷ curve) = do
  require (ltb prev.after_calls bp.after_calls) invalid_volume_curve
  require (leb bp.price_per_call prev.price_per_call) volume_curve_not_descending
  require (ltb 0 bp.price_per_call) invalid_volume_curve_price
  check_curve_from bp curve

unfoldable pub check_curve : List VolumeCurveBreakpoint → Result (Unit {0})
unfolding check_curve_from
check_curve [] = ok tt
check_curve (bp ∷ curve) = check_curve_from bp curve

-- validator.rs: `validate_payment_token`.
unfoldable pub validate_payment_token : Option Pubkey → Result (Unit {0})
validate_payment_token none = ok tt
validate_payment_token (some mint) = require (is_accepted_usdc_mint mint) payment_token_not_allowed

unfoldable pub check_payment_token : Option Pubkey → ℕ → Result (Unit {0})
unfolding validate_payment_token
check_payment_token none decimals = do
  validate_payment_token none
  require (decimals == 9) invalid_payment_token
check_payment_token (some mint) decimals = do
  validate_payment_token (some mint)
  require (is_accepted_usdc_mint mint) invalid_payment_token
  require (decimals == 6) invalid_payment_token

-- The new escrow, with no deposit yet.
abbrev pub new_escrow :
    CreateAccounts → CreateArgs → Clock → ℕ → ℕ → SettlementSecurity → EscrowAccountV2
new_escrow accounts args clock bump potential security = record {
  bump = bump;
  version = version_2;
  agent = accounts.agent_key;
  depositor = accounts.depositor;
  agent_wallet = accounts.agent.wallet;
  escrow_nonce = args.escrow_nonce;
  balance = 0;
  total_deposited = 0;
  total_settled = 0;
  total_calls_settled = 0;
  price_per_call = args.price_per_call;
  max_calls = args.max_calls;
  created_at = clock.unix_timestamp;
  last_settled_at = pos 0;
  expires_at = args.expires_at;
  volume_curve = args.volume_curve;
  token_mint = args.token_mint;
  token_decimals = args.token_decimals;
  settlement_security = security;
  dispute_window_slots = args.dispute_window_slots;
  settlement_index = 0;
  co_signer = args.co_signer;
  arbiter = args.arbiter;
  pending_amount = 0;
  pending_calls = 0;
  receipt_batch_count = 0;
  dispute_bond_total = 0;
  max_obligation = potential;
  pending_settlement_count = 0;
}

unfoldable pub open_stats : Clock → AgentStats → Result AgentStats
open_stats clock stats = do
  n ← checked_add_u32 stats.active_escrows 1
  ok (record stats { active_escrows = n; updated_at = clock.unix_timestamp })

-- The checks of the arguments, in the handler's order; the terms that they settle.
unfoldable pub create_terms : CreateAccounts → CreateArgs → Clock → Result (ℕ × SettlementSecurity)
unfolding max_potential required_stake parse_security check_curve check_payment_token
create_terms accounts args clock = do
  potential ← max_potential args.max_calls args.price_per_call args.initial_deposit
  stake ← required_stake potential
  require (leb stake accounts.agent_stake.staked_amount) stake_below_coverage
  security ← parse_security args accounts.agent.wallet
  require (ltb 0 args.price_per_call) invalid_price_per_call
  require
      (if ltb_ℤ (pos 0) args.expires_at then ltb_ℤ clock.unix_timestamp args.expires_at else true)
      escrow_already_expired
  require (leb (length args.volume_curve) max_volume_curve) too_many_volume_curve_points
  check_curve args.volume_curve
  check_payment_token args.token_mint args.token_decimals
  require (validate_price accounts.pricing_menu args.token_mint args.price_per_call)
      pricing_tier_not_found
  ok (potential, security)

module _ (rt : Runtime) where
  unfoldable pub create_constraints : CreateAccounts → ℕ → Bank → Result Bank
  create_constraints accounts nonce bank = do
    require accounts.agent.is_active agent_inactive
    constraint
        (at_bump rt (stake_seeds accounts.agent_key) accounts.agent_stake.bump
          accounts.agent_stake_key)
        constraint_seeds
    require (accounts.agent_stake.agent == accounts.agent_key) stake_agent_mismatch
    require (leb min_stake accounts.agent_stake.staked_amount) agent_stake_required
    constraint
        (at_bump rt (stats_seeds accounts.agent_key) accounts.agent_stats.bump
          accounts.agent_stats_key)
        constraint_seeds
    constraint
        (at_bump rt (pricing_seeds accounts.agent_key) accounts.pricing_menu.bump
          accounts.pricing_menu_key)
        constraint_seeds
    constraint
        (at_address rt (escrow_seeds accounts.agent_key accounts.depositor nonce)
          accounts.escrow_key)
        constraint_seeds
    rt.init accounts.depositor accounts.escrow_key bank

  -- The transfer of the initial deposit, by tokens or lamports.
  unfoldable pub take_deposit :
      Pubkey → Pubkey → List AccountInfo → Option Pubkey → ℕ → Bank → Result Bank
  take_deposit depositor escrow_key remaining token_mint amount bank =
      if is_some token_mint
      then spl_transfer_from_signer rt depositor remaining amount token_mint (some escrow_key) bank
      else rt.system_transfer depositor escrow_key amount bank

  unfoldable pub create_escrow_v2 :
      CreateAccounts → CreateArgs → Clock → Bank → Result (EscrowAccountV2 × AgentStats × Bank)
  unfolding create_constraints open_stats
  create_escrow_v2 accounts args clock bank = do
    bank₁ ← create_constraints accounts args.escrow_nonce bank
    (potential, security) ← create_terms accounts args clock
    let bump =
        (rt.find_program_address
          (escrow_seeds accounts.agent_key accounts.depositor args.escrow_nonce)).1
    let escrow = new_escrow accounts args clock bump potential security
    stats ← open_stats clock accounts.agent_stats
    if ltb 0 args.initial_deposit
        then (do
          bank₂ ←
              take_deposit accounts.depositor accounts.escrow_key accounts.remaining args.token_mint
                args.initial_deposit bank₁
          ok (
            record escrow {
              balance = args.initial_deposit;
              total_deposited = args.initial_deposit;
            },
            stats,
            bank₂,
          ))
        else ok (escrow, stats, bank₁)
