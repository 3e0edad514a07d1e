-- ===== src/Tool/Handlers.antt =====
-- instructions/tools.rs: the handlers of tools.
use synapse_sap.Common.{
  ℕ, ◌||◌, Bool, true, false, not, Option, none, some, leb, ltb, ◌==◌, if◌then◌else◌, length,
  is_some,
}
use synapse_sap.Errors.{
  SapError, Result, ok, err, sap, require, constraint, ok_or, ◌>>=◌, ◌>>◌, constraint_seeds,
  constraint_has_one, empty_tool_name, tool_name_too_long, invalid_tool_name_hash,
  invalid_tool_http_method, invalid_tool_category, invalid_tool_parameter_count,
  invalid_schema_hash, invalid_schema_type, no_fields_to_update, tool_already_inactive,
  tool_already_active,
}
use synapse_sap.Checked.{checked_add_u16, checked_add_u32, saturating_sub}
use synapse_sap.State.{
  Pubkey, Hash, Bytes, ToolDescriptor, GlobalRegistry, http_method_from_u8, category_from_u8,
  max_tool_name_len,
}
use synapse_sap.Runtime.{Runtime, Bank, Clock}
use synapse_sap.Seeds.{tool_seeds, at_address}
use synapse_sap.Owner.{Owner, owner_constraints, global_constraints}

pub record ToolAccounts : Type 0 where
  pub owner : Owner
  pub tool_key : Pubkey
  pub tool : ToolDescriptor

-- The arguments of `publish_tool`.
pub record ToolArgs : Type 0 where
  pub tool_name : Bytes
  pub tool_name_hash : Hash
  pub protocol_hash : Hash
  pub description_hash : Hash
  pub input_schema_hash : Hash
  pub output_schema_hash : Hash
  pub http_method : ℕ
  pub category : ℕ
  pub params_count : ℕ
  pub required_params : ℕ
  pub is_compound : Bool

-- The arguments of `update_tool`.
pub record ToolChanges : Type 0 where
  pub description_hash : Option Hash
  pub input_schema_hash : Option Hash
  pub output_schema_hash : Option Hash
  pub http_method : Option ℕ
  pub category : Option ℕ
  pub params_count : Option ℕ
  pub required_params : Option ℕ

abbrev any_change : ToolChanges → Bool
any_change c =
    is_some c.description_hash
    || is_some c.input_schema_hash
    || is_some c.output_schema_hash
    || is_some c.http_method
    || is_some c.category
    || is_some c.params_count
    || is_some c.required_params

-- `if let Some(h) = description_hash { tool.description_hash = h; }`
abbrev changed : Option ℕ → ℕ → ℕ
changed none old = old
changed (some new) old = new

-- `if let Some(m) = http_method { tool.http_method = ToolHttpMethod::from_u8(m).ok_or(…)?; }`
abbrev parsed {ℓ} : {A : Type ℓ} → (ℕ → Option A) → SapError → Option ℕ → A → Result A
parsed from_u8 e none old = ok old
parsed from_u8 e (some new) old = ok_or (from_u8 new) e

-- The `match` on the schema type.
unfoldable pub check_schema : ToolDescriptor → ℕ → Hash → Result (Unit {0})
check_schema tool schema_type schema_hash =
    if schema_type == 0
    then require (schema_hash == tool.input_schema_hash) invalid_schema_hash
    else if schema_type == 1
    then require (schema_hash == tool.output_schema_hash) invalid_schema_hash
    else if schema_type == 2
    then require (schema_hash == tool.description_hash) invalid_schema_hash
    else err (sap invalid_schema_type)

module _ (rt : Runtime) where
  -- The name and its hash.
  unfoldable pub check_tool_name : Bytes → Hash → Result (Unit {0})
  check_tool_name tool_name tool_name_hash = do
    require (ltb 0 (length tool_name)) empty_tool_name
    require (leb (length tool_name) max_tool_name_len) tool_name_too_long
    require (tool_name_hash == rt.hash tool_name) invalid_tool_name_hash

  -- The field `tool` of the accounts is not read.
  unfoldable pub publish_tool :
      ToolAccounts
      → Pubkey
      → GlobalRegistry
      → ToolArgs
      → Clock
      → Bank
      → Result (ToolDescriptor × GlobalRegistry × Bank)
  unfolding owner_constraints global_constraints check_tool_name
  publish_tool a global_key registry args clock bank = do
    let seeds = tool_seeds a.owner.agent_key args.tool_name_hash
    owner_constraints rt a.owner
    constraint (at_address rt seeds a.tool_key) constraint_seeds
    bank₁ ← rt.init a.owner.wallet a.tool_key bank
    global_constraints rt global_key registry
    check_tool_name args.tool_name args.tool_name_hash
    http_method ← ok_or (http_method_from_u8 args.http_method) invalid_tool_http_method
    category ← ok_or (category_from_u8 args.category) invalid_tool_category
    require (leb args.required_params args.params_count) invalid_tool_parameter_count
    tools ← checked_add_u32 registry.total_tools 1
    ok (
      record {
        bump = (rt.find_program_address seeds).1;
        agent = a.owner.agent_key;
        tool_name_hash = args.tool_name_hash;
        tool_name = args.tool_name;
        protocol_hash = args.protocol_hash;
        version = 1;
        description_hash = args.description_hash;
        input_schema_hash = args.input_schema_hash;
        output_schema_hash = args.output_schema_hash;
        http_method = http_method;
        category = category;
        params_count = args.params_count;
        required_params = args.required_params;
        is_compound = args.is_compound;
        is_active = true;
        total_invocations = 0;
        created_at = clock.unix_timestamp;
        updated_at = clock.unix_timestamp;
        previous_version = 0;
      },
      record registry { total_tools = tools },
      bank₁,
    )

  unfoldable pub tool_constraints : ToolAccounts → Result (Unit {0})
  unfolding owner_constraints
  tool_constraints a = do
    owner_constraints rt a.owner
    constraint (a.tool.agent == a.owner.agent_key) constraint_has_one

  -- The schema itself only goes to the log.
  unfoldable pub inscribe_tool_schema : ToolAccounts → ℕ → Hash → Result (Unit {0})
  unfolding tool_constraints check_schema
  inscribe_tool_schema a schema_type schema_hash = do
    tool_constraints a
    check_schema a.tool schema_type schema_hash

  unfoldable pub update_tool : ToolAccounts → ToolChanges → Clock → Result ToolDescriptor
  unfolding tool_constraints
  update_tool a c clock = do
    tool_constraints a
    require (any_change c) no_fields_to_update
    let tool = a.tool
    version ← checked_add_u16 tool.version 1
    http_method ← parsed http_method_from_u8 invalid_tool_http_method c.http_method tool.http_method
    category ← parsed category_from_u8 invalid_tool_category c.category tool.category
    let params_count = changed c.params_count tool.params_count
    let required_params = changed c.required_params tool.required_params
    require (leb required_params params_count) invalid_tool_parameter_count
    ok (record tool {
      version = version;
      updated_at = clock.unix_timestamp;
      description_hash = changed c.description_hash tool.description_hash;
      input_schema_hash = changed c.input_schema_hash tool.input_schema_hash;
      output_schema_hash = changed c.output_schema_hash tool.output_schema_hash;
      http_method = http_method;
      category = category;
      params_count = params_count;
      required_params = required_params;
    })

  unfoldable pub deactivate_tool : ToolAccounts → Clock → Result ToolDescriptor
  unfolding tool_constraints
  deactivate_tool a clock = do
    tool_constraints a
    require (a.tool.is_active) tool_already_inactive
    ok (record (a.tool) { is_active = false; updated_at = clock.unix_timestamp })

  unfoldable pub reactivate_tool : ToolAccounts → Clock → Result ToolDescriptor
  unfolding tool_constraints
  reactivate_tool a clock = do
    tool_constraints a
    require (not a.tool.is_active) tool_already_active
    ok (record (a.tool) { is_active = true; updated_at = clock.unix_timestamp })

  unfoldable pub close_tool :
      ToolAccounts → Pubkey → GlobalRegistry → Bank → Result (GlobalRegistry × Bank)
  unfolding tool_constraints global_constraints
  close_tool a global_key registry bank = do
    tool_constraints a
    global_constraints rt global_key registry
    bank₁ ← rt.close a.tool_key a.owner.wallet bank
    ok (record registry { total_tools = saturating_sub registry.total_tools 1 }, bank₁)
