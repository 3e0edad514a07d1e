-- ===== src/Tests/Agent.antt =====
-- Runs of the agent's handlers: an agent registers, and goes inactive.
use synapse_sap.Common.{◌≡◌, refl, true, false, none, List, [], ◌∷◌}
use synapse_sap.Common.Int.{pos}
use synapse_sap.Errors.{ok}
use synapse_sap.Constants.{protocol_treasury}
use synapse_sap.State.{AgentAccount, AgentStats, GlobalRegistry}
use synapse_sap.Runtime.{AccountInfo, update, move_lamports}
use synapse_sap.Seeds.{agent_seeds, stats_seeds, pricing_seeds, global_seeds, at_address, at_bump}
use synapse_sap.Validator.Checks.{
  validate_name, validate_description, check_capabilities, validate_capabilities, check_pricing,
  validate_pricing, validate_registration,
}
use synapse_sap.Agent.Handlers.{AgentAccounts, Registration, Registered, register, deactivate}
use synapse_sap.Agent.Counters.{
  World, Reach, IsCounted, Reach-IsCounted, entry, world, registered, deactivated, empty, next,
}
use synapse_sap.Tests.Demo

abbrev data_given : Registration
data_given = record {
  name = 97 ∷ [];
  description = 98 ∷ [];
  capabilities = [];
  pricing = [];
  protocols = [];
  agent_id = none;
  agent_uri = none;
  x402_endpoint = none;
}

abbrev none_yet : GlobalRegistry
none_yet = record (Demo.registry) { total_agents = 0; active_agents = 0 }

abbrev new_agent : AgentAccount
new_agent = record (Demo.agent) {
  description = 98 ∷ [];
  created_at = pos 1000;
  updated_at = pos 1000;
  uptime_percent = 100;
}

abbrev new_stats : AgentStats
new_stats = record (Demo.stats) { updated_at = pos 1000 }

abbrev one_agent : GlobalRegistry
one_agent = record none_yet { total_agents = 1; active_agents = 1; last_registered_at = pos 1000 }

-- The fee of 0.04 SOL has gone to the treasury.
abbrev new : Registered
new = record {
  agent = new_agent;
  stats = new_stats;
  menu = record (Demo.menu) { tiers = []; updated_at = pos 1000 };
  registry = one_agent;
  bank = record (Demo.bank) {
    lamports =
        update (update Demo.bank.lamports Demo.wallet 960000000) protocol_treasury 1040000000;
  };
}

abbrev treasury : List AccountInfo
treasury = record { key = protocol_treasury; is_signer = false; is_writable = true } ∷ []

register-ok :
    register Demo.runtime Demo.wallet Demo.agent_key Demo.stats_key Demo.pricing_key Demo.global_key
      none_yet treasury data_given Demo.clock Demo.bank
    ≡ ok new
unfolding register at_address at_bump agent_seeds stats_seeds pricing_seeds global_seeds
    validate_registration validate_name validate_description check_capabilities
    validate_capabilities check_pricing validate_pricing move_lamports
register-ok = refl

abbrev accounts : AgentAccounts
accounts = record {
  owner = record { wallet = Demo.wallet; agent_key = Demo.agent_key; agent = new_agent };
  stats_key = Demo.stats_key;
  stats = new_stats;
  global_key = Demo.global_key;
  registry = one_agent;
}

abbrev resting : AgentAccount
resting = record new_agent { is_active = false }

abbrev resting_stats : AgentStats
resting_stats = record new_stats { is_active = false }

abbrev none_active : GlobalRegistry
none_active = record one_agent { active_agents = 0 }

deactivate-ok :
    deactivate Demo.runtime accounts Demo.clock ≡ ok (resting, resting_stats, none_active)
unfolding deactivate at_bump agent_seeds stats_seeds global_seeds
deactivate-ok = refl

abbrev start : World
start = record { total_agents = 0; active_agents = 0; entries = [] }

abbrev one : World
one = world one_agent (entry Demo.agent_key new_agent new_stats ∷ [])

abbrev after_rest : World
after_rest = world none_active (entry Demo.agent_key resting resting_stats ∷ [])

rest_reached : Reach Demo.runtime after_rest
rest_reached =
    next one after_rest
      (next start one (empty start refl) (
        registered Demo.wallet Demo.agent_key Demo.stats_key Demo.pricing_key Demo.global_key
          none_yet treasury data_given Demo.clock Demo.bank new (refl, refl) register-ok refl))
      (deactivated accounts [] [] Demo.clock resting resting_stats none_active (refl, refl) refl
        deactivate-ok refl)

Reach-IsCounted_example : IsCounted after_rest
Reach-IsCounted_example = Reach-IsCounted Demo.runtime after_rest rest_reached
