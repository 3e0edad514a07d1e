-- ===== src/Index/Capability.antt =====
-- instructions/indexing.rs: the handlers of the index by capability.
use synapse_sap.Common.{Bool, true, false, List, [], ◌∷◌, ◌++◌, ltb, ◌==◌, if◌then◌else◌, length}
use synapse_sap.Errors.{
  Result, ok, require, constraint, ok_or, ◌>>=◌, ◌>>◌, constraint_seeds, invalid_capability_hash,
  agent_capability_mismatch, capability_index_full, agent_not_in_index, index_not_empty,
}
use synapse_sap.Checked.{checked_add_u32, saturating_sub}
use synapse_sap.State.{
  Pubkey, Hash, Bytes, AgentAccount, Capability, CapabilityIndex, GlobalRegistry, max_agents,
}
use synapse_sap.Runtime.{Runtime, Bank, Clock}
use synapse_sap.Seeds.{capability_seeds, at_address, at_bump}
use synapse_sap.Owner.{Owner, owner_constraints, global_constraints}
use synapse_sap.Index.Members.{contains, position, swap_remove}

-- The accounts of `add` and `remove`.
pub record CapabilityAccounts : Type 0 where
  pub owner : Owner
  pub index_key : Pubkey
  pub index : CapabilityIndex

module _ (rt : Runtime) where
  abbrev any_capability : List Capability → Hash → Bool
  any_capability [] capability_hash = false
  any_capability (c ∷ cs) capability_hash =
      if rt.hash c.id == capability_hash then true else any_capability cs capability_hash

  unfoldable pub agent_has_capability_hash : AgentAccount → Hash → Bool
  agent_has_capability_hash agent capability_hash =
      any_capability agent.capabilities capability_hash

  unfoldable pub capability_constraints : CapabilityAccounts → Hash → Result (Unit {0})
  unfolding owner_constraints
  capability_constraints a capability_hash = do
    owner_constraints rt a.owner
    constraint (at_bump rt (capability_seeds capability_hash) a.index.bump a.index_key)
        constraint_seeds

  unfoldable pub init_capability :
      Owner
      → Pubkey
      → Pubkey
      → GlobalRegistry
      → Bytes
      → Hash
      → Clock
      → Bank
      → Result (CapabilityIndex × GlobalRegistry × Bank)
  unfolding owner_constraints global_constraints agent_has_capability_hash
  init_capability owner index_key global_key registry capability_id capability_hash clock bank = do
    let seeds = capability_seeds capability_hash
    owner_constraints rt owner
    constraint (at_address rt seeds index_key) constraint_seeds
    bank₁ ← rt.init owner.wallet index_key bank
    global_constraints rt global_key registry
    require (rt.hash capability_id == capability_hash) invalid_capability_hash
    require (agent_has_capability_hash owner.agent capability_hash) agent_capability_mismatch
    capabilities ← checked_add_u32 registry.total_capabilities 1
    ok (
      record {
        bump = (rt.find_program_address seeds).1;
        capability_id = capability_id;
        capability_hash = capability_hash;
        agents = owner.agent_key ∷ [];
        total_pages = 0;
        last_updated = clock.unix_timestamp;
      },
      record registry { total_capabilities = capabilities },
      bank₁,
    )

  unfoldable pub add_to_capability : CapabilityAccounts → Hash → Clock → Result CapabilityIndex
  unfolding capability_constraints agent_has_capability_hash
  add_to_capability a capability_hash clock = do
    capability_constraints a capability_hash
    let agents = a.index.agents
    require (a.index.capability_hash == capability_hash) invalid_capability_hash
    require (agent_has_capability_hash a.owner.agent capability_hash) agent_capability_mismatch
    require (ltb (length agents) max_agents) capability_index_full
    ok (
        if contains agents a.owner.agent_key then a.index else record (a.index) {
          agents = agents ++ a.owner.agent_key ∷ [];
          last_updated = clock.unix_timestamp;
        })

  unfoldable pub remove_from_capability : CapabilityAccounts → Hash → Clock → Result CapabilityIndex
  unfolding capability_constraints
  remove_from_capability a capability_hash clock = do
    capability_constraints a capability_hash
    pos ← ok_or (position a.index.agents a.owner.agent_key) agent_not_in_index
    ok (record (a.index) {
      agents = swap_remove a.index.agents pos;
      last_updated = clock.unix_timestamp;
    })

  unfoldable pub close_capability_index :
      CapabilityAccounts → Pubkey → GlobalRegistry → Hash → Bank → Result (GlobalRegistry × Bank)
  unfolding capability_constraints global_constraints
  close_capability_index a global_key registry capability_hash bank = do
    capability_constraints a capability_hash
    require (length a.index.agents == 0) index_not_empty
    global_constraints rt global_key registry
    bank₁ ← rt.close a.index_key a.owner.wallet bank
    ok (
      record registry { total_capabilities = saturating_sub registry.total_capabilities 1 },
      bank₁,
    )
