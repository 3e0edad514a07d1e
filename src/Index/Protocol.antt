-- ===== src/Index/Protocol.antt =====
-- instructions/indexing.rs: the handlers of the index by protocol.
use synapse_sap.Common.{Bool, true, false, List, [], ◌∷◌, ◌++◌, ltb, ◌==◌, if◌then◌else◌, length}
use synapse_sap.Errors.{
  Result, ok, require, constraint, ok_or, ◌>>=◌, ◌>>◌, constraint_seeds, invalid_protocol_hash,
  agent_protocol_mismatch, protocol_index_full, agent_not_in_index, index_not_empty,
}
use synapse_sap.Checked.{checked_add_u32, saturating_sub}
use synapse_sap.State.{Pubkey, Hash, Bytes, AgentAccount, ProtocolIndex, GlobalRegistry, max_agents}
use synapse_sap.Runtime.{Runtime, Bank, Clock}
use synapse_sap.Seeds.{protocol_seeds, at_address, at_bump}
use synapse_sap.Owner.{Owner, owner_constraints, global_constraints}
use synapse_sap.Index.Members.{contains, position, swap_remove}

-- The accounts of `add` and `remove`.
pub record ProtocolAccounts : Type 0 where
  pub owner : Owner
  pub index_key : Pubkey
  pub index : ProtocolIndex

module _ (rt : Runtime) where
  abbrev any_protocol : List Bytes → Hash → Bool
  any_protocol [] protocol_hash = false
  any_protocol (p ∷ ps) protocol_hash =
      if rt.hash p == protocol_hash then true else any_protocol ps protocol_hash

  unfoldable pub agent_has_protocol_hash : AgentAccount → Hash → Bool
  agent_has_protocol_hash agent protocol_hash = any_protocol agent.protocols protocol_hash

  unfoldable pub protocol_constraints : ProtocolAccounts → Hash → Result (Unit {0})
  unfolding owner_constraints
  protocol_constraints a protocol_hash = do
    owner_constraints rt a.owner
    constraint (at_bump rt (protocol_seeds protocol_hash) a.index.bump a.index_key) constraint_seeds

  unfoldable pub init_protocol :
      Owner
      → Pubkey
      → Pubkey
      → GlobalRegistry
      → Bytes
      → Hash
      → Clock
      → Bank
      → Result (ProtocolIndex × GlobalRegistry × Bank)
  unfolding owner_constraints global_constraints agent_has_protocol_hash
  init_protocol owner index_key global_key registry protocol_id protocol_hash clock bank = do
    let seeds = protocol_seeds protocol_hash
    owner_constraints rt owner
    constraint (at_address rt seeds index_key) constraint_seeds
    bank₁ ← rt.init owner.wallet index_key bank
    global_constraints rt global_key registry
    require (rt.hash protocol_id == protocol_hash) invalid_protocol_hash
    require (agent_has_protocol_hash owner.agent protocol_hash) agent_protocol_mismatch
    protocols ← checked_add_u32 registry.total_protocols 1
    ok (
      record {
        bump = (rt.find_program_address seeds).1;
        protocol_id = protocol_id;
        protocol_hash = protocol_hash;
        agents = owner.agent_key ∷ [];
        total_pages = 0;
        last_updated = clock.unix_timestamp;
      },
      record registry { total_protocols = protocols },
      bank₁,
    )

  unfoldable pub add_to_protocol : ProtocolAccounts → Hash → Clock → Result ProtocolIndex
  unfolding protocol_constraints agent_has_protocol_hash
  add_to_protocol a protocol_hash clock = do
    protocol_constraints a protocol_hash
    let agents = a.index.agents
    require (a.index.protocol_hash == protocol_hash) invalid_protocol_hash
    require (agent_has_protocol_hash a.owner.agent protocol_hash) agent_protocol_mismatch
    require (ltb (length agents) max_agents) protocol_index_full
    ok (
        if contains agents a.owner.agent_key then a.index else record (a.index) {
          agents = agents ++ a.owner.agent_key ∷ [];
          last_updated = clock.unix_timestamp;
        })

  unfoldable pub remove_from_protocol : ProtocolAccounts → Hash → Clock → Result ProtocolIndex
  unfolding protocol_constraints
  remove_from_protocol a protocol_hash clock = do
    protocol_constraints a protocol_hash
    pos ← ok_or (position a.index.agents a.owner.agent_key) agent_not_in_index
    ok (record (a.index) {
      agents = swap_remove a.index.agents pos;
      last_updated = clock.unix_timestamp;
    })

  unfoldable pub close_protocol_index :
      ProtocolAccounts → Pubkey → GlobalRegistry → Hash → Bank → Result (GlobalRegistry × Bank)
  unfolding protocol_constraints global_constraints
  close_protocol_index a global_key registry protocol_hash bank = do
    protocol_constraints a protocol_hash
    require (length a.index.agents == 0) index_not_empty
    global_constraints rt global_key registry
    bank₁ ← rt.close a.index_key a.owner.wallet bank
    ok (record registry { total_protocols = saturating_sub registry.total_protocols 1 }, bank₁)
