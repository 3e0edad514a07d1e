-- ===== src/State/Legacy.antt =====
-- state.rs: the accounts behind the feature legacy-memory, and plugins.
use synapse_sap.Common.{ℕ, Bool, Option, none, some, ◌==◌, if◌then◌else◌}
use synapse_sap.Common.Int.{ℤ}
use synapse_sap.State.Agent.{Pubkey, Hash, Bytes, PluginType}

-- `PluginType::from_u8`
unfoldable pub plugin_type_from_u8 : ℕ → Option PluginType
plugin_type_from_u8 value =
    if value == 0
    then some PluginType.memory
    else if value == 1
    then some PluginType.validation
    else if value == 2
    then some PluginType.delegation
    else if value == 3
    then some PluginType.analytics
    else if value == 4
    then some PluginType.governance
    else if value == 5
    then some PluginType.custom
    else none

abbrev pub max_plugins : ℕ
max_plugins = 5

pub record PluginSlot : Type 0 where
  pub bump : ℕ
  pub agent : Pubkey
  pub plugin_type : PluginType
  pub is_active : Bool
  pub initialized_at : ℤ
  pub last_updated : ℤ
  pub data_account : Option Pubkey

pub record MemoryEntry : Type 0 where
  pub bump : ℕ
  pub agent : Pubkey
  pub entry_hash : Hash
  pub content_type : Bytes
  pub ipfs_cid : Option Bytes
  pub total_chunks : ℕ
  pub total_size : ℕ
  pub created_at : ℤ
  pub updated_at : ℤ

abbrev pub max_content_type_len : ℕ
max_content_type_len = 32

abbrev pub max_ipfs_cid_len : ℕ
max_ipfs_cid_len = 64

pub record MemoryChunk : Type 0 where
  pub bump : ℕ
  pub memory_entry : Pubkey
  pub chunk_index : ℕ
  pub content : Bytes

abbrev pub max_chunk_size : ℕ
max_chunk_size = 900

pub record MemoryBuffer : Type 0 where
  pub bump : ℕ
  pub session : Pubkey
  pub authority : Pubkey
  pub page_index : ℕ
  pub num_entries : ℕ
  pub total_size : ℕ
  pub created_at : ℤ
  pub updated_at : ℤ
  pub content : Bytes

abbrev pub max_write_size : ℕ
max_write_size = 750

abbrev pub max_total_size : ℕ
max_total_size = 10000

-- The discriminator, the fields before the bytes, and the length of the bytes.
abbrev pub header_space : ℕ
header_space = 101

pub record MemoryDigest : Type 0 where
  pub bump : ℕ
  pub session : Pubkey
  pub authority : Pubkey
  pub num_entries : ℕ
  pub merkle_root : Hash
  pub latest_hash : Hash
  pub total_data_size : ℕ
  pub storage_ref : Hash
  pub storage_type : ℕ
  pub created_at : ℤ
  pub updated_at : ℤ
