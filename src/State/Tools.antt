-- ===== src/State/Tools.antt =====
-- state.rs: tools, their index by category, checkpoints of sessions, and counter shards.
use synapse_sap.Common.{ℕ, Bool, Option, none, some, List, ◌==◌, if◌then◌else◌}
use synapse_sap.Common.Int.{ℤ}
use synapse_sap.State.Agent.{Pubkey, Hash, Bytes}

pub data ToolHttpMethod : Type 0 where
  get post put delete compound : ToolHttpMethod

-- `ToolHttpMethod::from_u8`
unfoldable pub http_method_from_u8 : ℕ → Option ToolHttpMethod
http_method_from_u8 value =
    if value == 0
    then some ToolHttpMethod.get
    else if value == 1
    then some ToolHttpMethod.post
    else if value == 2
    then some ToolHttpMethod.put
    else if value == 3
    then some ToolHttpMethod.delete
    else if value == 4
    then some ToolHttpMethod.compound
    else none

pub data ToolCategory : Type 0 where
  swap lend stake nft payment tool_data governance bridge analytics custom : ToolCategory

-- `ToolCategory::from_u8`
unfoldable pub category_from_u8 : ℕ → Option ToolCategory
category_from_u8 value =
    if value == 0
    then some ToolCategory.swap
    else if value == 1
    then some ToolCategory.lend
    else if value == 2
    then some ToolCategory.stake
    else if value == 3
    then some ToolCategory.nft
    else if value == 4
    then some ToolCategory.payment
    else if value == 5
    then some ToolCategory.tool_data
    else if value == 6
    then some ToolCategory.governance
    else if value == 7
    then some ToolCategory.bridge
    else if value == 8
    then some ToolCategory.analytics
    else if value == 9
    then some ToolCategory.custom
    else none

-- The place of a category in the enum, by which the derived `PartialEq` compares.
abbrev pub category_index : ToolCategory → ℕ
category_index ToolCategory.swap = 0
category_index ToolCategory.lend = 1
category_index ToolCategory.stake = 2
category_index ToolCategory.nft = 3
category_index ToolCategory.payment = 4
category_index ToolCategory.tool_data = 5
category_index ToolCategory.governance = 6
category_index ToolCategory.bridge = 7
category_index ToolCategory.analytics = 8
category_index ToolCategory.custom = 9

pub record ToolDescriptor : Type 0 where
  pub bump : ℕ
  pub agent : Pubkey
  pub tool_name_hash : Hash
  pub tool_name : Bytes
  pub protocol_hash : Hash
  pub version : ℕ
  pub description_hash : Hash
  pub input_schema_hash : Hash
  pub output_schema_hash : Hash
  pub http_method : ToolHttpMethod
  pub category : ToolCategory
  pub params_count : ℕ
  pub required_params : ℕ
  pub is_compound : Bool
  pub is_active : Bool
  pub total_invocations : ℕ
  pub created_at : ℤ
  pub updated_at : ℤ
  pub previous_version : Pubkey

abbrev pub max_tool_name_len : ℕ
max_tool_name_len = 32

pub record SessionCheckpoint : Type 0 where
  pub bump : ℕ
  pub session : Pubkey
  pub checkpoint_index : ℕ
  pub merkle_root : Hash
  pub sequence_at : ℕ
  pub epoch_at : ℕ
  pub total_bytes_at : ℕ
  pub inscriptions_at : ℕ
  pub created_at : ℤ

pub record ToolCategoryIndex : Type 0 where
  pub bump : ℕ
  pub category : ℕ
  pub tools : List Pubkey
  pub total_pages : ℕ
  pub last_updated : ℤ

abbrev pub max_tools : ℕ
max_tools = 100

pub record CounterShard : Type 0 where
  pub bump : ℕ
  pub shard_index : ℕ
  pub total_agents : ℕ
  pub active_agents : ℕ
  pub total_feedbacks : ℕ
  pub total_tools : ℕ
  pub total_vaults : ℕ
  pub total_attestations : ℕ
  pub total_settlements : ℕ
  pub total_disputes : ℕ
  pub total_subscriptions : ℕ
  pub last_updated : ℤ

abbrev pub num_shards : ℕ
num_shards = 8
