-- ===== src/Tests/Demo.antt =====
-- A concrete runtime and concrete accounts for the tests: addresses are digests of the seeds, the
-- transfers of the system program move lamports in the bank, and the calls of token programs and
-- the creation of accounts succeed.
use synapse_sap.Common.{ℕ, ◌+◌, ◌*◌, true, none, some, List, [], ◌∷◌}
use synapse_sap.Common.Int.{pos}
use synapse_sap.Errors.{ok}
use synapse_sap.State.{
  Pubkey, Bytes, AgentAccount, AgentPricingMenu, PricingTier, TokenType, AgentStats, AgentStake,
  GlobalRegistry,
}
use synapse_sap.Runtime.{Runtime, Bank, Clock, move_lamports}
use synapse_sap.Seeds.{
  with_bump, agent_seeds, stats_seeds, pricing_seeds, stake_seeds, escrow_seeds, pending_seeds,
  global_seeds,
}
use synapse_sap.Escrow.Create.{CreateAccounts, CreateArgs}

abbrev digest_bytes : ℕ → Bytes → ℕ
digest_bytes acc [] = acc
digest_bytes acc (b ∷ bs) = digest_bytes (acc * 257 + b + 1) bs

abbrev pub digest : ℕ → List Bytes → ℕ
digest acc [] = acc
digest acc (s ∷ ss) = digest (digest_bytes acc s) ss

abbrev pub derive : List Bytes → Pubkey
derive seeds = digest 0 (with_bump seeds 255)

abbrev pub runtime : Runtime
runtime = record {
  program_id = 1;
  system_program_id = 0;
  find_program_address = λ seeds. (derive seeds, 255);
  create_program_address = λ seeds. some (digest 0 seeds);
  system_transfer = move_lamports;
  invoke = λ instruction seeds bank. ok bank;
  create_account = λ payer key lamports seeds bank. ok bank;
  init = λ payer key bank. ok bank;
  init_if_needed = λ payer key bank. ok bank;
  close = λ key receiver bank. ok bank;
  minimum_balance = λ len. 890880 + len * 6960;
  hash = λ bytes. digest_bytes 7 bytes;
  hash_pair = λ a b. a * 3 + b;
}

abbrev pub wallet : Pubkey
wallet = 11

abbrev pub depositor : Pubkey
depositor = 22

abbrev pub agent_key : Pubkey
agent_key = derive (agent_seeds wallet)

abbrev pub stats_key : Pubkey
stats_key = derive (stats_seeds agent_key)

abbrev pub pricing_key : Pubkey
pricing_key = derive (pricing_seeds agent_key)

abbrev pub stake_key : Pubkey
stake_key = derive (stake_seeds agent_key)

abbrev pub escrow_key : Pubkey
escrow_key = derive (escrow_seeds agent_key depositor 0)

abbrev pub pending_key : Pubkey
pending_key = derive (pending_seeds escrow_key 0)

abbrev pub agent : AgentAccount
agent = record {
  bump = 255;
  version = 1;
  wallet = wallet;
  name = 97 ∷ [];
  description = [];
  agent_id = none;
  agent_uri = none;
  x402_endpoint = none;
  is_active = true;
  created_at = pos 1;
  updated_at = pos 1;
  reputation_score = 0;
  total_feedbacks = 0;
  reputation_sum = 0;
  total_calls_served = 0;
  avg_latency_ms = 0;
  uptime_percent = 0;
  capabilities = [];
  pricing = [];
  protocols = [];
  active_plugins = [];
}

abbrev pub stats : AgentStats
stats = record {
  bump = 255;
  agent = agent_key;
  wallet = wallet;
  total_calls_served = 0;
  is_active = true;
  active_escrows = 0;
  updated_at = pos 1;
}

abbrev pub stake : AgentStake
stake = record {
  bump = 255;
  agent = agent_key;
  wallet = wallet;
  staked_amount = 200000000;
  slashed_amount = 0;
  last_stake_at = pos 1;
  unstake_requested_at = pos 0;
  unstake_amount = 0;
  unstake_available_at = pos 0;
  total_disputes_won = 0;
  total_disputes_lost = 0;
  created_at = pos 1;
}

-- One tier: a thousand lamports for a call.
abbrev tier : PricingTier
tier = record {
  tier_id = 98 ∷ [];
  price_per_call = 1000;
  min_price_per_call = none;
  max_price_per_call = none;
  rate_limit = 1;
  max_calls_per_session = 0;
  burst_limit = none;
  token_type = TokenType.sol;
  token_mint = none;
  token_decimals = some 9;
  settlement_mode = none;
  min_escrow_deposit = none;
  batch_interval_sec = none;
  volume_curve = none;
}

abbrev pub menu : AgentPricingMenu
menu = record { bump = 255; agent = agent_key; tiers = tier ∷ []; updated_at = pos 1 }

abbrev pub bank : Bank
bank = record { lamports = λ key. 1000000000; owner = λ key. 1; bytes = λ key. [] }

abbrev pub clock : Clock
clock = record { unix_timestamp = pos 1000; slot = 50 }

-- A clock at a later time and slot.
abbrev pub at : ℕ → ℕ → Clock
at time slot = record { unix_timestamp = pos time; slot = slot }

abbrev pub create_accounts : CreateAccounts
create_accounts = record {
  depositor = depositor;
  agent_key = agent_key;
  agent = agent;
  agent_stake_key = stake_key;
  agent_stake = stake;
  agent_stats_key = stats_key;
  agent_stats = stats;
  pricing_menu_key = pricing_key;
  pricing_menu = menu;
  escrow_key = escrow_key;
  remaining = [];
}

-- A hundred calls at a thousand lamports, half of that after fifty calls; a window of ten slots.
abbrev pub create_args : CreateArgs
create_args = record {
  escrow_nonce = 0;
  price_per_call = 1000;
  max_calls = 100;
  initial_deposit = 50000;
  expires_at = pos 0;
  volume_curve = record { after_calls = 50; price_per_call = 500 } ∷ [];
  token_mint = none;
  token_decimals = 9;
  settlement_security = 2;
  dispute_window_slots = 10;
  co_signer = none;
  arbiter = none;
}

abbrev pub global_key : Pubkey
global_key = derive global_seeds

abbrev pub registry : GlobalRegistry
registry = record {
  bump = 255;
  total_agents = 1;
  active_agents = 1;
  total_feedbacks = 0;
  total_capabilities = 0;
  total_protocols = 0;
  last_registered_at = pos 0;
  initialized_at = pos 0;
  authority = 44;
  total_tools = 0;
  total_vaults = 0;
  total_escrows = 0;
  total_attestations = 0;
}
