-- ===== src/Index/PageSet.antt =====
-- An overflow page as a set of agents, with the runs of its handlers.
use synapse_sap.Common.{ℕ, ◌≤◌, ◌≡◌, length, Option-cases, inl, inr, arith}
use synapse_sap.Errors.{ok}
use synapse_sap.State.{Pubkey, IndexPage, GlobalRegistry}
use synapse_sap.Runtime.{Runtime, Bank, Clock}
use synapse_sap.Index.Members.{position}
use synapse_sap.Index.Page.{
  PageAccounts, init_index_page, add_to_index_page, remove_from_index_page,
}
use synapse_sap.Index.Life.{
  AgentSet, IsSetOf, nobody, insert, delete, Kind, Reach, inserted, deleted, Reach-IsSetOf,
  absent-IsSetOf,
}

module _ (rt : Runtime) where
  pub data PageCreated : IndexPage → AgentSet → Type 0 where
    run :
        (authority global_key : Pubkey) (registry : GlobalRegistry) (parent_index page_key : Pubkey)
        (page_index : ℕ) (clock : Clock) (bank bank' : Bank) (out : IndexPage)
        → init_index_page rt authority global_key registry parent_index page_key page_index clock
            bank
          ≡ ok (out, bank')
        → PageCreated out nobody

  pub data PageAdded : IndexPage → Pubkey → IndexPage → Type 0 where
    run :
        (a : PageAccounts) (agent_pda : Pubkey) (out : IndexPage)
        → add_to_index_page rt a agent_pda ≡ ok out
        → PageAdded a.page agent_pda out

  pub data PageRemoved : IndexPage → Pubkey → IndexPage → Type 0 where
    run :
        (a : PageAccounts) (agent_pda : Pubkey) (out : IndexPage)
        → remove_from_index_page rt a agent_pda ≡ ok out
        → PageRemoved a.page agent_pda out

  pub page_created :
      (b : IndexPage) (s : AgentSet)
      → PageCreated b s
      → IsSetOf b.entries s × (length b.entries ≤ 100)
  unfolding init_index_page
  page_created b s (run authority g r parent key i clock bank bank' out h) =
      (λ j. ground arith, ground arith)

  pub page_added :
      (b c : IndexPage) (k : Pubkey) (s : AgentSet)
      → PageAdded b k c
      → IsSetOf b.entries s
      → IsSetOf c.entries (insert k s) × (length c.entries ≤ 100)
  unfolding add_to_index_page
  page_added b c k s (run a agent_pda out h) of =
      inserted a.page.entries out.entries agent_pda s (ground arith) of

  pub page_removed :
      (b c : IndexPage) (k : Pubkey) (s : AgentSet)
      → PageRemoved b k c
      → IsSetOf b.entries s
      → IsSetOf c.entries (delete k s) × (length c.entries ≤ length b.entries)
  unfolding remove_from_index_page
  page_removed b c k s (run a agent_pda out h) of =
      elim (Option-cases (position a.page.entries agent_pda)) [
        | inl none_left ↦
            let e : out.entries ≡ a.page.entries = ground arith in
            rw e (absent-IsSetOf a.page.entries agent_pda s none_left of, omega arith)
        | inr (i, at) ↦ deleted a.page.entries out.entries agent_pda s (i, at, ground arith) of
      ]

  abbrev pub page_kind : Kind
  page_kind = record {
    Account = IndexPage;
    members = λ b. b.entries;
    Created = PageCreated;
    Added = PageAdded;
    Removed = PageRemoved;
    created_lem = page_created;
    added_lem = page_added;
    removed_lem = page_removed;
  }

  -- A page holds the set of the agents that the authority added and did not remove since, each of
  -- them once, and at most a hundred; to remove an agent that is not in it changes nothing.
  pub index_page-IsSetOf :
      (page : IndexPage) (s : AgentSet)
      → Reach page_kind page s
      → IsSetOf page.entries s × (length page.entries ≤ 100)
  index_page-IsSetOf page s r = Reach-IsSetOf page_kind page s r
