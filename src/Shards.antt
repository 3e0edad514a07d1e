-- ===== src/Shards.antt =====
-- instructions/shards.rs: the handler that creates a counter shard, and the choice of a shard.
use synapse_sap.Common.{ℕ, ◌<◌, ◌%◌, [], ◌∷◌, ltb, arith}
use synapse_sap.Errors.{
  Result, ok, require, constraint, ◌>>=◌, ◌>>◌, constraint_seeds, invalid_shard_index,
}
use synapse_sap.State.{Pubkey, Bytes, GlobalRegistry, CounterShard, num_shards}
use synapse_sap.Runtime.{Runtime, Bank, Clock}
use synapse_sap.Seeds.{shard_seeds, key_bytes, at_address}
use synapse_sap.Index.Page.{authority_constraints}

-- `bytes[0]`, where the array is not empty.
abbrev first_byte : Bytes → ℕ
first_byte [] = 0
first_byte (b ∷ bytes) = b

unfoldable pub shard_index_for_key : Pubkey → ℕ
shard_index_for_key key = first_byte (key_bytes key) % num_shards

unfoldable pub init_shard :
    Runtime
    → Pubkey
    → Pubkey
    → GlobalRegistry
    → Pubkey
    → ℕ
    → Clock
    → Bank
    → Result (CounterShard × Bank)
unfolding authority_constraints
init_shard rt authority global_key registry shard_key shard_index clock bank = do
  let seeds = shard_seeds shard_index
  authority_constraints rt authority global_key registry
  constraint (at_address rt seeds shard_key) constraint_seeds
  bank₁ ← rt.init authority shard_key bank
  require (ltb shard_index num_shards) invalid_shard_index
  ok (
    record {
      bump = (rt.find_program_address seeds).1;
      shard_index = shard_index;
      total_agents = 0;
      active_agents = 0;
      total_feedbacks = 0;
      total_tools = 0;
      total_vaults = 0;
      total_attestations = 0;
      total_settlements = 0;
      total_disputes = 0;
      total_subscriptions = 0;
      last_updated = clock.unix_timestamp;
    },
    bank₁,
  )

-- The shard that is chosen for a key is one of those that can be created.
pub shard_index_for_key_bounds : (key : Pubkey) → shard_index_for_key key < 8
unfolding shard_index_for_key
shard_index_for_key_bounds key = omega arith
