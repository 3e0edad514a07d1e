-- ===== src/State/Registry.antt =====
-- state.rs: the global registry, feedback, attestations, and the discovery indexes.
use synapse_sap.Common.{ℕ, Bool, Option, List}
use synapse_sap.Common.Int.{ℤ}
use synapse_sap.State.Agent.{Pubkey, Hash, Bytes}

pub record GlobalRegistry : Type 0 where
  pub bump : ℕ
  pub total_agents : ℕ
  pub active_agents : ℕ
  pub total_feedbacks : ℕ
  pub total_capabilities : ℕ
  pub total_protocols : ℕ
  pub last_registered_at : ℤ
  pub initialized_at : ℤ
  pub authority : Pubkey
  pub total_tools : ℕ
  pub total_vaults : ℕ
  pub total_escrows : ℕ
  pub total_attestations : ℕ

pub record FeedbackAccount : Type 0 where
  pub bump : ℕ
  pub agent : Pubkey
  pub reviewer : Pubkey
  pub score : ℕ
  pub tag : Bytes
  pub comment_hash : Option Hash
  pub created_at : ℤ
  pub updated_at : ℤ
  pub is_revoked : Bool

abbrev pub max_tag_len : ℕ
max_tag_len = 32

pub record AgentAttestation : Type 0 where
  pub bump : ℕ
  pub agent : Pubkey
  pub attester : Pubkey
  pub attestation_type : Bytes
  pub metadata_hash : Hash
  pub is_active : Bool
  pub expires_at : ℤ
  pub created_at : ℤ
  pub updated_at : ℤ

abbrev pub max_type_len : ℕ
max_type_len = 32

pub record CapabilityIndex : Type 0 where
  pub bump : ℕ
  pub capability_id : Bytes
  pub capability_hash : Hash
  pub agents : List Pubkey
  pub total_pages : ℕ
  pub last_updated : ℤ

pub record ProtocolIndex : Type 0 where
  pub bump : ℕ
  pub protocol_id : Bytes
  pub protocol_hash : Hash
  pub agents : List Pubkey
  pub total_pages : ℕ
  pub last_updated : ℤ

-- `MAX_AGENTS` of the two indexes.
abbrev pub max_agents : ℕ
max_agents = 100

abbrev pub max_entries : ℕ
max_entries = 100

pub record IndexPage : Type 0 where
  pub bump : ℕ
  pub parent_index : Pubkey
  pub page_index : ℕ
  pub entries : List Pubkey
  pub last_updated : ℤ
