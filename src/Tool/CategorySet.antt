-- ===== src/Tool/CategorySet.antt =====
-- The index of a category as a set of tools, with the runs of its handlers.
use synapse_sap.Common.{ℕ, ◌≤◌, ◌≡◌, some, length, Option-cases, inl, inr, arith}
use synapse_sap.Errors.{ok}
use synapse_sap.State.{Pubkey, ToolCategoryIndex}
use synapse_sap.Runtime.{Runtime, Bank, Clock}
use synapse_sap.Owner.{Owner}
use synapse_sap.Index.Members.{position, swap_remove}
use synapse_sap.Index.Life.{
  AgentSet, IsSetOf, nobody, insert, delete, Kind, Reach, inserted, deleted, Reach-IsSetOf,
}
use synapse_sap.Tool.Category.{
  CategoryAccounts, init_tool_category_index, add_to_tool_category, remove_from_tool_category,
}

module _ (rt : Runtime) where
  pub data CategoryCreated : ToolCategoryIndex → AgentSet → Type 0 where
    run :
        (owner : Owner) (index_key : Pubkey) (category : ℕ) (clock : Clock) (bank bank' : Bank)
        (out : ToolCategoryIndex)
        → init_tool_category_index rt owner index_key category clock bank ≡ ok (out, bank')
        → CategoryCreated out nobody

  pub data ToolAdded : ToolCategoryIndex → Pubkey → ToolCategoryIndex → Type 0 where
    run :
        (a : CategoryAccounts) (category : ℕ) (clock : Clock) (out : ToolCategoryIndex)
        → add_to_tool_category rt a category clock ≡ ok out
        → ToolAdded a.index a.tool.tool_key out

  pub data ToolRemoved : ToolCategoryIndex → Pubkey → ToolCategoryIndex → Type 0 where
    run :
        (a : CategoryAccounts) (category : ℕ) (clock : Clock) (out : ToolCategoryIndex)
        → remove_from_tool_category rt a category clock ≡ ok out
        → ToolRemoved a.index a.tool.tool_key out

  pub category_created :
      (b : ToolCategoryIndex) (s : AgentSet)
      → CategoryCreated b s
      → IsSetOf b.tools s × (length b.tools ≤ 100)
  unfolding init_tool_category_index
  category_created b s (run owner index_key category clock bank bank' out h) =
      (λ j. ground arith, ground arith)

  pub category_added :
      (b c : ToolCategoryIndex) (k : Pubkey) (s : AgentSet)
      → ToolAdded b k c
      → IsSetOf b.tools s
      → IsSetOf c.tools (insert k s) × (length c.tools ≤ 100)
  unfolding add_to_tool_category
  category_added b c k s (run a category clock out h) of =
      inserted a.index.tools out.tools a.tool.tool_key s (ground arith) of

  -- A removal that succeeds found the tool.
  removed_place :
      (a : CategoryAccounts) (category : ℕ) (clock : Clock) (out : ToolCategoryIndex)
      → remove_from_tool_category rt a category clock ≡ ok out
      → (i : ℕ) × (position a.index.tools a.tool.tool_key ≡ some i)
        × (out.tools ≡ swap_remove a.index.tools i)
  unfolding remove_from_tool_category
  removed_place a category clock out h =
      elim (Option-cases (position a.index.tools a.tool.tool_key)) [
        | inl none_left ↦ ground arith
        | inr (i, at) ↦ (i, at, ground arith)
      ]

  pub category_removed :
      (b c : ToolCategoryIndex) (k : Pubkey) (s : AgentSet)
      → ToolRemoved b k c
      → IsSetOf b.tools s
      → IsSetOf c.tools (delete k s) × (length c.tools ≤ length b.tools)
  category_removed b c k s (run a category clock out h) of =
      deleted a.index.tools out.tools a.tool.tool_key s (removed_place a category clock out h) of

  abbrev pub category_kind : Kind
  category_kind = record {
    Account = ToolCategoryIndex;
    members = λ b. b.tools;
    Created = CategoryCreated;
    Added = ToolAdded;
    Removed = ToolRemoved;
    created_lem = category_created;
    added_lem = category_added;
    removed_lem = category_removed;
  }

  -- The index of a category holds the set of the tools that were added and not removed since, each
  -- of them once, and at most a hundred.
  pub tool_category-IsSetOf :
      (b : ToolCategoryIndex) (s : AgentSet)
      → Reach category_kind b s
      → IsSetOf b.tools s × (length b.tools ≤ 100)
  tool_category-IsSetOf b s r = Reach-IsSetOf category_kind b s r
