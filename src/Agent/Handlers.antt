-- ===== src/Agent/Handlers.antt =====
-- instructions/agent.rs: the six handlers.
use synapse_sap.Common.{
  Bool, true, false, not, ◌||◌, Option, none, some, List, [], ◌∷◌, ◌==◌, if◌then◌else◌, is_some,
}
use synapse_sap.Errors.{
  Result, ok, err, sap, require, constraint, ◌>>=◌, ◌>>◌, constraint_seeds, constraint_has_one,
  invalid_treasury, no_fields_to_update, already_inactive, already_active, vault_not_closed,
  escrow_not_closed, stake_agent_mismatch,
}
use synapse_sap.Checked.{checked_add_u64, saturating_sub}
use synapse_sap.Constants.{protocol_treasury, registration_fee_lamports}
use synapse_sap.State.{
  Pubkey, Bytes, AgentAccount, AgentStats, AgentPricingMenu, AgentStake, Capability, PricingTier,
  GlobalRegistry,
}
use synapse_sap.Runtime.{Runtime, Bank, Clock, AccountInfo, data_is_empty}
use synapse_sap.Seeds.{
  agent_seeds, stats_seeds, pricing_seeds, stake_seeds, vault_seeds, at_address, at_bump,
}
use synapse_sap.Owner.{Owner, owner_constraints, global_constraints}
use synapse_sap.Validator.Checks.{validate_registration, validate_update}

-- The accounts of `deactivate`, `reactivate` and `close`.
pub record AgentAccounts : Type 0 where
  pub owner : Owner
  pub stats_key : Pubkey
  pub stats : AgentStats
  pub global_key : Pubkey
  pub registry : GlobalRegistry

-- The data of a registration.
pub record Registration : Type 0 where
  pub name : Bytes
  pub description : Bytes
  pub capabilities : List Capability
  pub pricing : List PricingTier
  pub protocols : List Bytes
  pub agent_id : Option Bytes
  pub agent_uri : Option Bytes
  pub x402_endpoint : Option Bytes

pub record Registered : Type 0 where
  pub agent : AgentAccount
  pub stats : AgentStats
  pub menu : AgentPricingMenu
  pub registry : GlobalRegistry
  pub bank : Bank

-- The fields of an update that are given.
pub record Changes : Type 0 where
  pub name : Option Bytes
  pub description : Option Bytes
  pub capabilities : Option (List Capability)
  pub pricing : Option (List PricingTier)
  pub protocols : Option (List Bytes)
  pub agent_id : Option Bytes
  pub agent_uri : Option Bytes
  pub x402_endpoint : Option Bytes

-- `ctx.remaining_accounts.first()` with the checks on it.
unfoldable pub check_treasury : List AccountInfo → Result (Unit {0})
check_treasury [] = err (sap invalid_treasury)
check_treasury (treasury ∷ rest) = do
  require (treasury.key == protocol_treasury) invalid_treasury
  require treasury.is_writable invalid_treasury

-- `if let Some(n) = name { agent.name = n; }`
abbrev pub given_or {ℓ} : {A : Type ℓ} → Option A → A → A
given_or none old = old
given_or (some new) old = new

abbrev pub given_or_same {ℓ} : {A : Type ℓ} → Option A → Option A → Option A
given_or_same none old = old
given_or_same (some new) old = some new

abbrev pub any_given : Changes → Bool
any_given c =
    is_some c.name
    || is_some c.description
    || is_some c.agent_id
    || is_some c.capabilities
    || is_some c.pricing
    || is_some c.protocols
    || is_some c.agent_uri
    || is_some c.x402_endpoint

-- The menu follows the tiers, where they are given.
unfoldable pub update_menu : Option (List PricingTier) → Clock → AgentPricingMenu → AgentPricingMenu
update_menu none clock menu = menu
update_menu (some tiers) clock menu = record menu {
  tiers = tiers;
  updated_at = clock.unix_timestamp;
}

module _ (rt : Runtime) where
  unfoldable pub register :
      Pubkey
      → Pubkey
      → Pubkey
      → Pubkey
      → Pubkey
      → GlobalRegistry
      → List AccountInfo
      → Registration
      → Clock
      → Bank
      → Result Registered
  unfolding global_constraints check_treasury
  register wallet agent_key stats_key menu_key global_key registry remaining r clock bank = do
    constraint (at_address rt (agent_seeds wallet) agent_key) constraint_seeds
    bank₁ ← rt.init wallet agent_key bank
    constraint (at_address rt (stats_seeds agent_key) stats_key) constraint_seeds
    bank₂ ← rt.init wallet stats_key bank₁
    constraint (at_address rt (pricing_seeds agent_key) menu_key) constraint_seeds
    bank₃ ← rt.init wallet menu_key bank₂
    global_constraints rt global_key registry
    validate_registration r.name r.description r.agent_id r.capabilities r.pricing r.protocols
        r.agent_uri r.x402_endpoint
    check_treasury remaining
    bank₄ ← rt.system_transfer wallet protocol_treasury registration_fee_lamports bank₃
    total ← checked_add_u64 registry.total_agents 1
    active ← checked_add_u64 registry.active_agents 1
    ok (record {
      agent = record {
        bump = (rt.find_program_address (agent_seeds wallet)).1;
        version = 1;
        wallet = wallet;
        name = r.name;
        description = r.description;
        agent_id = r.agent_id;
        agent_uri = r.agent_uri;
        x402_endpoint = r.x402_endpoint;
        is_active = true;
        created_at = clock.unix_timestamp;
        updated_at = clock.unix_timestamp;
        reputation_score = 0;
        total_feedbacks = 0;
        reputation_sum = 0;
        total_calls_served = 0;
        avg_latency_ms = 0;
        uptime_percent = 100;
        capabilities = r.capabilities;
        pricing = r.pricing;
        protocols = r.protocols;
        active_plugins = [];
      };
      stats = record {
        bump = (rt.find_program_address (stats_seeds agent_key)).1;
        agent = agent_key;
        wallet = wallet;
        total_calls_served = 0;
        is_active = true;
        active_escrows = 0;
        updated_at = clock.unix_timestamp;
      };
      menu = record {
        bump = (rt.find_program_address (pricing_seeds agent_key)).1;
        agent = agent_key;
        tiers = r.pricing;
        updated_at = clock.unix_timestamp;
      };
      registry = record registry {
        total_agents = total;
        active_agents = active;
        last_registered_at = clock.unix_timestamp;
      };
      bank = bank₄;
    })

  unfoldable pub update_agent :
      Owner → Pubkey → AgentPricingMenu → Changes → Clock → Result (AgentAccount × AgentPricingMenu)
  unfolding owner_constraints update_menu
  update_agent o menu_key menu c clock = do
    owner_constraints rt o
    constraint (at_bump rt (pricing_seeds o.agent_key) menu.bump menu_key) constraint_seeds
    validate_update c.name c.description c.agent_id c.capabilities c.pricing c.protocols c.agent_uri
        c.x402_endpoint
    require (any_given c) no_fields_to_update
    ok (
      record (o.agent) {
        name = given_or c.name o.agent.name;
        description = given_or c.description o.agent.description;
        agent_id = given_or_same c.agent_id o.agent.agent_id;
        capabilities = given_or c.capabilities o.agent.capabilities;
        pricing = given_or c.pricing o.agent.pricing;
        protocols = given_or c.protocols o.agent.protocols;
        agent_uri = given_or_same c.agent_uri o.agent.agent_uri;
        x402_endpoint = given_or_same c.x402_endpoint o.agent.x402_endpoint;
        updated_at = clock.unix_timestamp;
      },
      update_menu c.pricing clock menu,
    )

  -- All fields of the menu are written.
  unfoldable pub migrate_pricing_menu :
      Owner → Pubkey → Clock → Bank → Result (AgentPricingMenu × Bank)
  unfolding owner_constraints
  migrate_pricing_menu o menu_key clock bank = do
    let seeds = pricing_seeds o.agent_key
    owner_constraints rt o
    constraint (at_address rt seeds menu_key) constraint_seeds
    bank₁ ← rt.init_if_needed o.wallet menu_key bank
    ok (
      record {
        bump = (rt.find_program_address seeds).1;
        agent = o.agent_key;
        tiers = o.agent.pricing;
        updated_at = clock.unix_timestamp;
      },
      bank₁,
    )

  unfoldable pub status_constraints : AgentAccounts → Result (Unit {0})
  unfolding owner_constraints global_constraints
  status_constraints a = do
    owner_constraints rt a.owner
    constraint (at_bump rt (stats_seeds a.owner.agent_key) a.stats.bump a.stats_key)
        constraint_seeds
    global_constraints rt a.global_key a.registry

  unfoldable pub deactivate :
      AgentAccounts → Clock → Result (AgentAccount × AgentStats × GlobalRegistry)
  unfolding status_constraints
  deactivate a clock = do
    status_constraints a
    require a.owner.agent.is_active already_inactive
    ok (
      record (a.owner.agent) { is_active = false; updated_at = clock.unix_timestamp },
      record (a.stats) { is_active = false; updated_at = clock.unix_timestamp },
      record (a.registry) { active_agents = saturating_sub a.registry.active_agents 1 },
    )

  unfoldable pub reactivate :
      AgentAccounts → Clock → Result (AgentAccount × AgentStats × GlobalRegistry)
  unfolding status_constraints
  reactivate a clock = do
    status_constraints a
    require (not a.owner.agent.is_active) already_active
    active ← checked_add_u64 a.registry.active_agents 1
    ok (
      record (a.owner.agent) { is_active = true; updated_at = clock.unix_timestamp },
      record (a.stats) { is_active = true; updated_at = clock.unix_timestamp },
      record (a.registry) { active_agents = active },
    )

  -- The lamports of the agent, its stats, its menu and its stake go to the wallet.
  unfoldable pub close_agent :
      AgentAccounts → Pubkey → Pubkey → Pubkey → AgentStake → Bank → Result (GlobalRegistry × Bank)
  unfolding status_constraints
  close_agent a vault_key menu_key stake_key stake bank = do
    let o = a.owner
    status_constraints a
    constraint (at_address rt (vault_seeds o.agent_key) vault_key) constraint_seeds
    constraint (at_address rt (pricing_seeds o.agent_key) menu_key) constraint_seeds
    constraint (at_bump rt (stake_seeds o.agent_key) stake.bump stake_key) constraint_seeds
    constraint (stake.wallet == o.wallet) constraint_has_one
    require (stake.agent == o.agent_key) stake_agent_mismatch
    require (data_is_empty bank vault_key) vault_not_closed
    require (a.stats.active_escrows == 0) escrow_not_closed
    bank₁ ← rt.close o.agent_key o.wallet bank
    bank₂ ← rt.close a.stats_key o.wallet bank₁
    bank₃ ← rt.close menu_key o.wallet bank₂
    bank₄ ← rt.close stake_key o.wallet bank₃
    let active = saturating_sub a.registry.active_agents 1
    ok (
      record (a.registry) {
        total_agents = saturating_sub a.registry.total_agents 1;
        active_agents = if o.agent.is_active then active else a.registry.active_agents;
      },
      bank₄,
    )
