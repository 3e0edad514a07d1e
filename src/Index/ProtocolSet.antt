-- ===== src/Index/ProtocolSet.antt =====
-- The index by protocol as a set of agents, with the runs of its handlers.
use synapse_sap.Common.{◌≤◌, ◌≡◌, length, Option-cases, inl, inr, arith}
use synapse_sap.Errors.{ok}
use synapse_sap.State.{Pubkey, Hash, Bytes, ProtocolIndex, GlobalRegistry}
use synapse_sap.Runtime.{Runtime, Bank, Clock}
use synapse_sap.Owner.{Owner}
use synapse_sap.Index.Members.{position}
use synapse_sap.Index.Protocol.{
  ProtocolAccounts, init_protocol, add_to_protocol, remove_from_protocol,
}
use synapse_sap.Index.Life.{
  AgentSet, IsSetOf, nobody, insert, delete, Kind, Reach, inserted, deleted, Reach-IsSetOf,
}

module _ (rt : Runtime) where
  pub data ProtocolCreated : ProtocolIndex → AgentSet → Type 0 where
    run :
        (owner : Owner) (index_key global_key : Pubkey) (registry registry' : GlobalRegistry)
        (protocol_id : Bytes) (hash : Hash) (clock : Clock) (bank bank' : Bank)
        (out : ProtocolIndex)
        → init_protocol rt owner index_key global_key registry protocol_id hash clock bank
          ≡ ok (out, registry', bank')
        → ProtocolCreated out (insert owner.agent_key nobody)

  pub data ProtocolAdded : ProtocolIndex → Pubkey → ProtocolIndex → Type 0 where
    run :
        (a : ProtocolAccounts) (hash : Hash) (clock : Clock) (out : ProtocolIndex)
        → add_to_protocol rt a hash clock ≡ ok out
        → ProtocolAdded a.index a.owner.agent_key out

  pub data ProtocolRemoved : ProtocolIndex → Pubkey → ProtocolIndex → Type 0 where
    run :
        (a : ProtocolAccounts) (hash : Hash) (clock : Clock) (out : ProtocolIndex)
        → remove_from_protocol rt a hash clock ≡ ok out
        → ProtocolRemoved a.index a.owner.agent_key out

  pub protocol_created :
      (b : ProtocolIndex) (s : AgentSet)
      → ProtocolCreated b s
      → IsSetOf b.agents s × (length b.agents ≤ 100)
  unfolding init_protocol
  protocol_created b s (run owner i g r r' id hash clock bank bank' out h) =
      (λ j. ground arith, ground arith)

  pub protocol_added :
      (b c : ProtocolIndex) (k : Pubkey) (s : AgentSet)
      → ProtocolAdded b k c
      → IsSetOf b.agents s
      → IsSetOf c.agents (insert k s) × (length c.agents ≤ 100)
  unfolding add_to_protocol
  protocol_added b c k s (run a hash clock out h) of =
      inserted a.index.agents out.agents a.owner.agent_key s (ground arith) of

  pub protocol_removed :
      (b c : ProtocolIndex) (k : Pubkey) (s : AgentSet)
      → ProtocolRemoved b k c
      → IsSetOf b.agents s
      → IsSetOf c.agents (delete k s) × (length c.agents ≤ length b.agents)
  unfolding remove_from_protocol
  protocol_removed b c k s (run a hash clock out h) of =
      elim (Option-cases (position a.index.agents a.owner.agent_key)) [
        | inl none_left ↦ absurd (ground arith)
        | inr (i, at) ↦
            deleted a.index.agents out.agents a.owner.agent_key s (i, at, ground arith) of
      ]

  abbrev pub protocol_kind : Kind
  protocol_kind = record {
    Account = ProtocolIndex;
    members = λ b. b.agents;
    Created = ProtocolCreated;
    Added = ProtocolAdded;
    Removed = ProtocolRemoved;
    created_lem = protocol_created;
    added_lem = protocol_added;
    removed_lem = protocol_removed;
  }

  -- Whatever agents add and remove themselves after `init_protocol`, the list of the index is the
  -- set of the agents that added themselves and did not remove themselves since, the creator
  -- included: each of them once, nobody else, and at most a hundred.
  pub protocol_index-IsSetOf :
      (index : ProtocolIndex) (s : AgentSet)
      → Reach protocol_kind index s
      → IsSetOf index.agents s × (length index.agents ≤ 100)
  protocol_index-IsSetOf index s r = Reach-IsSetOf protocol_kind index s r
