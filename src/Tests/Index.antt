-- ===== src/Tests/Index.antt =====
-- Runs of the index handlers: an agent creates the index of a capability and of a protocol, leaves
-- it and comes back; the authority fills a page.
use synapse_sap.Common.{ℕ, ◌≤◌, ◌≡◌, refl, none, List, [], ◌∷◌, length}
use synapse_sap.Common.Int.{pos}
use synapse_sap.Errors.{ok}
use synapse_sap.State.{Pubkey, AgentAccount, CapabilityIndex, ProtocolIndex, IndexPage}
use synapse_sap.Seeds.{
  agent_seeds, global_seeds, capability_seeds, protocol_seeds, index_page_seeds, at_address,
  at_bump,
}
use synapse_sap.Owner.{Owner}
use synapse_sap.Index.Members.{position, swap_remove}
use synapse_sap.Index.Capability.{
  CapabilityAccounts, init_capability, add_to_capability, remove_from_capability,
}
use synapse_sap.Index.Protocol.{ProtocolAccounts, init_protocol, remove_from_protocol}
use synapse_sap.Index.Page.{
  PageAccounts, init_index_page, add_to_index_page, remove_from_index_page,
}
use synapse_sap.Index.Life.{
  AgentSet, IsSetOf, nobody, insert, delete, Reach, created, added, removed,
}
use synapse_sap.Index.CapabilitySet
use synapse_sap.Index.CapabilitySet.{capability_kind, capability_index-IsSetOf}
use synapse_sap.Index.ProtocolSet
use synapse_sap.Index.ProtocolSet.{protocol_kind, protocol_index-IsSetOf}
use synapse_sap.Index.PageSet
use synapse_sap.Index.PageSet.{page_kind, index_page-IsSetOf}
use synapse_sap.Tests.Demo

abbrev agent : AgentAccount
agent = record (Demo.agent) {
  capabilities =
      record { id = 5 ∷ []; description = none; protocol_id = none; version = none } ∷ [];
  protocols = (6 ∷ []) ∷ [];
}

abbrev owner : Owner
owner = record { wallet = Demo.wallet; agent_key = Demo.agent_key; agent = agent }

-- The digest of one byte.
abbrev capability_hash : ℕ
capability_hash = Demo.runtime.hash (5 ∷ [])

abbrev protocol_hash : ℕ
protocol_hash = Demo.runtime.hash (6 ∷ [])

abbrev capability_key : Pubkey
capability_key = Demo.derive (capability_seeds capability_hash)

abbrev by_capability : List Pubkey → CapabilityIndex
by_capability agents = record {
  bump = 255;
  capability_id = 5 ∷ [];
  capability_hash = capability_hash;
  agents = agents;
  total_pages = 0;
  last_updated = pos 1000;
}

init_capability-ok :
    init_capability Demo.runtime owner capability_key Demo.global_key Demo.registry
      (5 ∷ [])
      capability_hash
      Demo.clock
      Demo.bank
    ≡ ok (
      by_capability (Demo.agent_key ∷ []),
      record (Demo.registry) { total_capabilities = 1 },
      Demo.bank,
    )
unfolding init_capability at_address at_bump agent_seeds global_seeds capability_seeds
init_capability-ok = refl

abbrev accounts : List Pubkey → CapabilityAccounts
accounts agents = record { owner = owner; index_key = capability_key; index = by_capability agents }

leave-ok :
    remove_from_capability Demo.runtime (accounts (Demo.agent_key ∷ [])) capability_hash Demo.clock
    ≡ ok (by_capability [])
unfolding remove_from_capability at_bump position swap_remove agent_seeds capability_seeds
leave-ok = refl

return-ok :
    add_to_capability Demo.runtime (accounts []) capability_hash Demo.clock
    ≡ ok (by_capability (Demo.agent_key ∷ []))
unfolding add_to_capability at_bump agent_seeds capability_seeds
return-ok = refl

abbrev back : AgentSet
back = insert Demo.agent_key (delete Demo.agent_key (insert Demo.agent_key nobody))

returned : Reach (capability_kind Demo.runtime) (by_capability (Demo.agent_key ∷ [])) back
returned =
    added (by_capability []) (by_capability (Demo.agent_key ∷ [])) Demo.agent_key
      (delete Demo.agent_key (insert Demo.agent_key nobody))
      (removed (by_capability (Demo.agent_key ∷ [])) (by_capability []) Demo.agent_key
        (insert Demo.agent_key nobody)
        (created (by_capability (Demo.agent_key ∷ [])) (insert Demo.agent_key nobody) (
          CapabilitySet.run owner capability_key Demo.global_key Demo.registry
            (record (Demo.registry) { total_capabilities = 1 }) (5 ∷ []) capability_hash Demo.clock
            Demo.bank Demo.bank (by_capability (Demo.agent_key ∷ [])) init_capability-ok))
        (CapabilitySet.run (accounts (Demo.agent_key ∷ [])) capability_hash Demo.clock
          (by_capability []) leave-ok))
      (CapabilitySet.run (accounts []) capability_hash Demo.clock
        (by_capability (Demo.agent_key ∷ [])) return-ok)

capability_index-IsSetOf_example :
    IsSetOf (Demo.agent_key ∷ []) back × (length {A = Pubkey} (Demo.agent_key ∷ []) ≤ 100)
capability_index-IsSetOf_example =
    capability_index-IsSetOf Demo.runtime (by_capability (Demo.agent_key ∷ [])) back returned

abbrev protocol_key : Pubkey
protocol_key = Demo.derive (protocol_seeds protocol_hash)

abbrev by_protocol : List Pubkey → ProtocolIndex
by_protocol agents = record {
  bump = 255;
  protocol_id = 6 ∷ [];
  protocol_hash = protocol_hash;
  agents = agents;
  total_pages = 0;
  last_updated = pos 1000;
}

abbrev protocol_accounts : List Pubkey → ProtocolAccounts
protocol_accounts agents = record {
  owner = owner;
  index_key = protocol_key;
  index = by_protocol agents;
}

init_protocol-ok :
    init_protocol Demo.runtime owner protocol_key Demo.global_key Demo.registry
      (6 ∷ [])
      protocol_hash
      Demo.clock
      Demo.bank
    ≡ ok (
      by_protocol (Demo.agent_key ∷ []),
      record (Demo.registry) { total_protocols = 1 },
      Demo.bank,
    )
unfolding init_protocol at_address at_bump agent_seeds global_seeds protocol_seeds
init_protocol-ok = refl

leave_protocol-ok :
    remove_from_protocol Demo.runtime
      (protocol_accounts (Demo.agent_key ∷ []))
      protocol_hash
      Demo.clock
    ≡ ok (by_protocol [])
unfolding remove_from_protocol at_bump position swap_remove agent_seeds protocol_seeds
leave_protocol-ok = refl

left :
    Reach
      (protocol_kind Demo.runtime)
      (by_protocol [])
      (delete Demo.agent_key (insert Demo.agent_key nobody))
left =
    removed (by_protocol (Demo.agent_key ∷ [])) (by_protocol []) Demo.agent_key
      (insert Demo.agent_key nobody)
      (created (by_protocol (Demo.agent_key ∷ [])) (insert Demo.agent_key nobody) (
        ProtocolSet.run owner protocol_key Demo.global_key Demo.registry
          (record (Demo.registry) { total_protocols = 1 }) (6 ∷ []) protocol_hash Demo.clock
          Demo.bank Demo.bank (by_protocol (Demo.agent_key ∷ [])) init_protocol-ok))
      (ProtocolSet.run (protocol_accounts (Demo.agent_key ∷ [])) protocol_hash Demo.clock
        (by_protocol []) leave_protocol-ok)

abbrev page_key : Pubkey
page_key = Demo.derive (index_page_seeds capability_key 1)

abbrev page : List Pubkey → IndexPage
page entries = record {
  bump = 255;
  parent_index = capability_key;
  page_index = 1;
  entries = entries;
  last_updated = pos 1000;
}

abbrev page_accounts : List Pubkey → PageAccounts
page_accounts entries = record {
  authority = 44;
  global_key = Demo.global_key;
  registry = Demo.registry;
  page_key = page_key;
  page = page entries;
}

init_page-ok :
    init_index_page Demo.runtime 44 Demo.global_key Demo.registry capability_key page_key 1
      Demo.clock Demo.bank
    ≡ ok (page [], Demo.bank)
unfolding init_index_page at_address at_bump global_seeds capability_seeds index_page_seeds
init_page-ok = refl

fill_page-ok : add_to_index_page Demo.runtime (page_accounts []) 8 ≡ ok (page (8 ∷ []))
unfolding add_to_index_page at_bump global_seeds capability_seeds index_page_seeds
fill_page-ok = refl

no_change-ok : remove_from_index_page Demo.runtime (page_accounts (8 ∷ [])) 9 ≡ ok (page (8 ∷ []))
unfolding remove_from_index_page position at_bump global_seeds capability_seeds index_page_seeds
no_change-ok = refl

filled : Reach (page_kind Demo.runtime) (page (8 ∷ [])) (delete 9 (insert 8 nobody))
filled =
    removed (page (8 ∷ [])) (page (8 ∷ [])) 9 (insert 8 nobody)
      (added (page []) (page (8 ∷ [])) 8 nobody
        (created (page []) nobody (
          PageSet.run 44 Demo.global_key Demo.registry capability_key page_key 1 Demo.clock
            Demo.bank Demo.bank (page []) init_page-ok))
        (PageSet.run (page_accounts []) 8 (page (8 ∷ [])) fill_page-ok))
      (PageSet.run (page_accounts (8 ∷ [])) 9 (page (8 ∷ [])) no_change-ok)
