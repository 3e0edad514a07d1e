-- ===== src/Index/Page.antt =====
-- instructions/index_page.rs: the handlers of the overflow pages, which only the authority of the
-- global registry runs.
use synapse_sap.Common.{
  ℕ, List, [], ◌∷◌, ◌++◌, ltb, ◌==◌, if◌then◌else◌, length, Option, none, some,
}
use synapse_sap.Errors.{
  Result, ok, require, constraint, ◌>>=◌, ◌>>◌, constraint_seeds, not_authority, index_page_full,
  index_page_not_empty,
}
use synapse_sap.State.{Pubkey, IndexPage, GlobalRegistry, max_entries}
use synapse_sap.Runtime.{Runtime, Bank, Clock}
use synapse_sap.Seeds.{index_page_seeds, at_address, at_bump}
use synapse_sap.Owner.{global_constraints}
use synapse_sap.Index.Members.{contains, position, swap_remove}

pub record PageAccounts : Type 0 where
  pub authority : Pubkey
  pub global_key : Pubkey
  pub registry : GlobalRegistry
  pub page_key : Pubkey
  pub page : IndexPage

-- The list after `if let Some(pos) = …`.
abbrev without : List Pubkey → Option ℕ → List Pubkey
without entries none = entries
without entries (some pos) = swap_remove entries pos

module _ (rt : Runtime) where
  unfoldable pub authority_constraints : Pubkey → Pubkey → GlobalRegistry → Result (Unit {0})
  unfolding global_constraints
  authority_constraints authority key registry = do
    global_constraints rt key registry
    require (registry.authority == authority) not_authority

  unfoldable pub page_constraints : PageAccounts → Result (Unit {0})
  unfolding authority_constraints
  page_constraints a = do
    authority_constraints a.authority a.global_key a.registry
    let seeds = index_page_seeds a.page.parent_index a.page.page_index
    constraint (at_bump rt seeds a.page.bump a.page_key) constraint_seeds

  unfoldable pub init_index_page :
      Pubkey
      → Pubkey
      → GlobalRegistry
      → Pubkey
      → Pubkey
      → ℕ
      → Clock
      → Bank
      → Result (IndexPage × Bank)
  unfolding authority_constraints
  init_index_page authority global_key registry parent_index page_key page_index clock bank = do
    let seeds = index_page_seeds parent_index page_index
    authority_constraints authority global_key registry
    constraint (at_address rt seeds page_key) constraint_seeds
    bank₁ ← rt.init authority page_key bank
    ok (
      record {
        bump = (rt.find_program_address seeds).1;
        parent_index = parent_index;
        page_index = page_index;
        entries = [];
        last_updated = clock.unix_timestamp;
      },
      bank₁,
    )

  unfoldable pub add_to_index_page : PageAccounts → Pubkey → Result IndexPage
  unfolding page_constraints
  add_to_index_page a agent_pda = do
    page_constraints a
    require (ltb (length a.page.entries) max_entries) index_page_full
    ok (
        if contains a.page.entries agent_pda
        then a.page
        else record (a.page) { entries = a.page.entries ++ agent_pda ∷ [] })

  unfoldable pub remove_from_index_page : PageAccounts → Pubkey → Result IndexPage
  unfolding page_constraints
  remove_from_index_page a agent_pda = do
    page_constraints a
    ok (record (a.page) { entries = without a.page.entries (position a.page.entries agent_pda) })

  unfoldable pub close_index_page : PageAccounts → Bank → Result Bank
  unfolding page_constraints
  close_index_page a bank = do
    page_constraints a
    require (length a.page.entries == 0) index_page_not_empty
    rt.close a.page_key a.authority bank
