-- ===== src/Tool/Category.antt =====
-- instructions/indexing.rs: the handlers of the index of tools by category.
use synapse_sap.Common.{ℕ, [], ◌∷◌, ◌++◌, ltb, ◌==◌, if◌then◌else◌, length, is_some}
use synapse_sap.Errors.{
  Result, ok, require, constraint, ok_or, ◌>>=◌, ◌>>◌, constraint_seeds, invalid_tool_category,
  tool_category_mismatch, tool_category_index_full, tool_not_in_category_index, index_not_empty,
}
use synapse_sap.State.{Pubkey, ToolCategoryIndex, category_from_u8, category_index, max_tools}
use synapse_sap.Runtime.{Runtime, Bank, Clock}
use synapse_sap.Seeds.{tool_category_seeds, at_address, at_bump}
use synapse_sap.Owner.{Owner, owner_constraints}
use synapse_sap.Index.Members.{contains, position, swap_remove}
use synapse_sap.Tool.Handlers.{ToolAccounts, tool_constraints}

-- The accounts of `add` and `remove`.
pub record CategoryAccounts : Type 0 where
  pub tool : ToolAccounts
  pub index_key : Pubkey
  pub index : ToolCategoryIndex

module _ (rt : Runtime) where
  unfoldable pub init_tool_category_index :
      Owner → Pubkey → ℕ → Clock → Bank → Result (ToolCategoryIndex × Bank)
  unfolding owner_constraints
  init_tool_category_index owner index_key category clock bank = do
    let seeds = tool_category_seeds category
    owner_constraints rt owner
    constraint (at_address rt seeds index_key) constraint_seeds
    bank₁ ← rt.init owner.wallet index_key bank
    require (is_some (category_from_u8 category)) invalid_tool_category
    ok (
      record {
        bump = (rt.find_program_address seeds).1;
        category = category;
        tools = [];
        total_pages = 0;
        last_updated = clock.unix_timestamp;
      },
      bank₁,
    )

  unfoldable pub category_constraints : CategoryAccounts → ℕ → Result (Unit {0})
  unfolding tool_constraints
  category_constraints a category = do
    tool_constraints rt a.tool
    constraint (at_bump rt (tool_category_seeds category) a.index.bump a.index_key) constraint_seeds

  unfoldable pub add_to_tool_category : CategoryAccounts → ℕ → Clock → Result ToolCategoryIndex
  unfolding category_constraints
  add_to_tool_category a category clock = do
    category_constraints a category
    let tools = a.index.tools
    expected ← ok_or (category_from_u8 category) invalid_tool_category
    require (category_index a.tool.tool.category == category_index expected) tool_category_mismatch
    require (ltb (length tools) max_tools) tool_category_index_full
    ok (
        if contains tools a.tool.tool_key then a.index else record (a.index) {
          tools = tools ++ a.tool.tool_key ∷ [];
          last_updated = clock.unix_timestamp;
        })

  unfoldable pub remove_from_tool_category : CategoryAccounts → ℕ → Clock → Result ToolCategoryIndex
  unfolding category_constraints
  remove_from_tool_category a category clock = do
    category_constraints a category
    pos ← ok_or (position a.index.tools a.tool.tool_key) tool_not_in_category_index
    ok (record (a.index) {
      tools = swap_remove a.index.tools pos;
      last_updated = clock.unix_timestamp;
    })

  unfoldable pub close_tool_category_index :
      Owner → Pubkey → ToolCategoryIndex → ℕ → Bank → Result Bank
  unfolding owner_constraints
  close_tool_category_index owner index_key index category bank = do
    owner_constraints rt owner
    constraint (at_bump rt (tool_category_seeds category) index.bump index_key) constraint_seeds
    require (length index.tools == 0) index_not_empty
    rt.close index_key owner.wallet bank
