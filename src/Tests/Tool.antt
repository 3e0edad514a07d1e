-- ===== src/Tests/Tool.antt =====
-- A tool that is published, listed under its category, updated and put to sleep; and a checkpoint of
-- the session of the vault's runs.
use synapse_sap.Common.{ℕ, ◌≡◌, refl, true, false, none, some, List, [], ◌∷◌}
use synapse_sap.Common.Int.{pos}
use synapse_sap.Errors.{ok}
use synapse_sap.State.{
  Pubkey, ToolDescriptor, ToolHttpMethod, ToolCategory, ToolCategoryIndex, SessionCheckpoint,
  SessionLedger, http_method_from_u8, category_from_u8,
}
use synapse_sap.Seeds.{
  agent_seeds, global_seeds, tool_seeds, tool_category_seeds, checkpoint_seeds, at_address, at_bump,
}
use synapse_sap.Tool.Handlers.{
  ToolAccounts, ToolArgs, ToolChanges, publish_tool, update_tool, deactivate_tool,
}
use synapse_sap.Tool.Life.{published, updated, deactivated, IsDescribed, Reach-IsDescribed}
use synapse_sap.Tool.Category.{CategoryAccounts, init_tool_category_index, add_to_tool_category}
use synapse_sap.Tool.Snapshots.{Marked}
use synapse_sap.Tests.Demo
use synapse_sap.Tests.Vault

abbrev name_hash : ℕ
name_hash = Demo.runtime.hash (7 ∷ [])

abbrev tool_key : Pubkey
tool_key = Demo.derive (tool_seeds Demo.agent_key name_hash)

abbrev args : ToolArgs
args = record {
  tool_name = 7 ∷ [];
  tool_name_hash = name_hash;
  protocol_hash = 1;
  description_hash = 2;
  input_schema_hash = 3;
  output_schema_hash = 4;
  http_method = 1;
  category = 0;
  params_count = 3;
  required_params = 2;
  is_compound = false;
}

abbrev tool : ToolDescriptor
tool = record {
  bump = 255;
  agent = Demo.agent_key;
  tool_name_hash = name_hash;
  tool_name = 7 ∷ [];
  protocol_hash = 1;
  version = 1;
  description_hash = 2;
  input_schema_hash = 3;
  output_schema_hash = 4;
  http_method = ToolHttpMethod.post;
  category = ToolCategory.swap;
  params_count = 3;
  required_params = 2;
  is_compound = false;
  is_active = true;
  total_invocations = 0;
  created_at = pos 1000;
  updated_at = pos 1000;
  previous_version = 0;
}

abbrev accounts : ToolDescriptor → ToolAccounts
accounts t = record { owner = Vault.owner; tool_key = tool_key; tool = t }

publish-ok :
    publish_tool Demo.runtime
      (accounts tool)
      Demo.global_key
      Demo.registry
      args
      Demo.clock
      Demo.bank
    ≡ ok (tool, record (Demo.registry) { total_tools = 1 }, Demo.bank)
unfolding publish_tool at_bump agent_seeds at_address tool_seeds global_seeds http_method_from_u8
    category_from_u8
publish-ok = refl

-- Another method and one parameter more.
abbrev changes : ToolChanges
changes = record {
  description_hash = none;
  input_schema_hash = none;
  output_schema_hash = none;
  http_method = some 0;
  category = none;
  params_count = some 4;
  required_params = none;
}

abbrev second : ToolDescriptor
second = record tool { version = 2; http_method = ToolHttpMethod.get; params_count = 4 }

update-ok : update_tool Demo.runtime (accounts tool) changes Demo.clock ≡ ok second
unfolding update_tool at_bump agent_seeds http_method_from_u8
update-ok = refl

abbrev asleep : ToolDescriptor
asleep = record second { is_active = false }

deactivate-ok : deactivate_tool Demo.runtime (accounts second) Demo.clock ≡ ok asleep
unfolding deactivate_tool at_bump agent_seeds
deactivate-ok = refl

Reach-IsDescribed_example : IsDescribed Demo.runtime asleep 1
Reach-IsDescribed_example = Reach-IsDescribed Demo.runtime asleep 1 (
    deactivated (accounts second) Demo.clock asleep 1
      (updated (accounts tool) changes Demo.clock second 0
        (published (accounts tool) Demo.global_key Demo.registry
          (record (Demo.registry) { total_tools = 1 }) args Demo.clock Demo.bank Demo.bank tool
          publish-ok)
        update-ok)
      deactivate-ok)

abbrev category_key : Pubkey
category_key = Demo.derive (tool_category_seeds 0)

abbrev swaps : List Pubkey → ToolCategoryIndex
swaps tools = record {
  bump = 255;
  category = 0;
  tools = tools;
  total_pages = 0;
  last_updated = pos 1000;
}

init_category-ok :
    init_tool_category_index Demo.runtime Vault.owner category_key 0 Demo.clock Demo.bank
    ≡ ok (swaps [], Demo.bank)
unfolding init_tool_category_index at_bump agent_seeds at_address tool_category_seeds
    category_from_u8
init_category-ok = refl

abbrev category_accounts : CategoryAccounts
category_accounts = record { tool = accounts tool; index_key = category_key; index = swaps [] }

add_category-ok :
    add_to_tool_category Demo.runtime category_accounts 0 Demo.clock ≡ ok (swaps (tool_key ∷ []))
unfolding add_to_tool_category at_bump agent_seeds tool_category_seeds category_from_u8
add_category-ok = refl

abbrev checkpoint_key : Pubkey
checkpoint_key = Demo.derive (checkpoint_seeds Vault.session_key 0)

-- After one inscription of three bytes.
abbrev checkpoint : SessionCheckpoint
checkpoint = record {
  bump = 255;
  session = Vault.session_key;
  checkpoint_index = 0;
  merkle_root = 5;
  sequence_at = 1;
  epoch_at = 0;
  total_bytes_at = 3;
  inscriptions_at = 1;
  created_at = pos 1000;
}

abbrev marked_session : SessionLedger
marked_session = record (Vault.second.session) { total_checkpoints = 1 }

abbrev before : Marked
before = record { world = Vault.second; checkpoints = [] }

abbrev after_checkpoint : Marked
after_checkpoint = record {
  world = record (Vault.second) { session = marked_session };
  checkpoints = checkpoint ∷ [];
}
