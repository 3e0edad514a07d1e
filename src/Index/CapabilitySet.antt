-- ===== src/Index/CapabilitySet.antt =====
-- The index by capability as a set of agents, with the runs of its handlers.
use synapse_sap.Common.{◌≤◌, ◌≡◌, length, Option-cases, inl, inr, arith}
use synapse_sap.Errors.{ok}
use synapse_sap.State.{Pubkey, Hash, Bytes, CapabilityIndex, GlobalRegistry}
use synapse_sap.Runtime.{Runtime, Bank, Clock}
use synapse_sap.Owner.{Owner}
use synapse_sap.Index.Members.{position}
use synapse_sap.Index.Capability.{
  CapabilityAccounts, init_capability, add_to_capability, remove_from_capability,
}
use synapse_sap.Index.Life.{
  AgentSet, IsSetOf, nobody, insert, delete, Kind, Reach, inserted, deleted, Reach-IsSetOf,
}

module _ (rt : Runtime) where
  pub data CapabilityCreated : CapabilityIndex → AgentSet → Type 0 where
    run :
        (owner : Owner) (index_key global_key : Pubkey) (registry registry' : GlobalRegistry)
        (capability_id : Bytes) (hash : Hash) (clock : Clock) (bank bank' : Bank)
        (out : CapabilityIndex)
        → init_capability rt owner index_key global_key registry capability_id hash clock bank
          ≡ ok (out, registry', bank')
        → CapabilityCreated out (insert owner.agent_key nobody)

  pub data CapabilityAdded : CapabilityIndex → Pubkey → CapabilityIndex → Type 0 where
    run :
        (a : CapabilityAccounts) (hash : Hash) (clock : Clock) (out : CapabilityIndex)
        → add_to_capability rt a hash clock ≡ ok out
        → CapabilityAdded a.index a.owner.agent_key out

  pub data CapabilityRemoved : CapabilityIndex → Pubkey → CapabilityIndex → Type 0 where
    run :
        (a : CapabilityAccounts) (hash : Hash) (clock : Clock) (out : CapabilityIndex)
        → remove_from_capability rt a hash clock ≡ ok out
        → CapabilityRemoved a.index a.owner.agent_key out

  pub capability_created :
      (b : CapabilityIndex) (s : AgentSet)
      → CapabilityCreated b s
      → IsSetOf b.agents s × (length b.agents ≤ 100)
  unfolding init_capability
  capability_created b s (run owner i g r r' id hash clock bank bank' out h) =
      (λ j. ground arith, ground arith)

  pub capability_added :
      (b c : CapabilityIndex) (k : Pubkey) (s : AgentSet)
      → CapabilityAdded b k c
      → IsSetOf b.agents s
      → IsSetOf c.agents (insert k s) × (length c.agents ≤ 100)
  unfolding add_to_capability
  capability_added b c k s (run a hash clock out h) of =
      inserted a.index.agents out.agents a.owner.agent_key s (ground arith) of

  pub capability_removed :
      (b c : CapabilityIndex) (k : Pubkey) (s : AgentSet)
      → CapabilityRemoved b k c
      → IsSetOf b.agents s
      → IsSetOf c.agents (delete k s) × (length c.agents ≤ length b.agents)
  unfolding remove_from_capability
  capability_removed b c k s (run a hash clock out h) of =
      elim (Option-cases (position a.index.agents a.owner.agent_key)) [
        | inl none_left ↦ absurd (ground arith)
        | inr (i, at) ↦
            deleted a.index.agents out.agents a.owner.agent_key s (i, at, ground arith) of
      ]

  abbrev pub capability_kind : Kind
  capability_kind = record {
    Account = CapabilityIndex;
    members = λ b. b.agents;
    Created = CapabilityCreated;
    Added = CapabilityAdded;
    Removed = CapabilityRemoved;
    created_lem = capability_created;
    added_lem = capability_added;
    removed_lem = capability_removed;
  }

  -- Whatever agents add and remove themselves after `init_capability`, the list of the index is the
  -- set of the agents that added themselves and did not remove themselves since, the creator
  -- included: each of them once, nobody else, and at most a hundred.
  pub capability_index-IsSetOf :
      (index : CapabilityIndex) (s : AgentSet)
      → Reach capability_kind index s
      → IsSetOf index.agents s × (length index.agents ≤ 100)
  capability_index-IsSetOf index s r = Reach-IsSetOf capability_kind index s r
