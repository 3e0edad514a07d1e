-- ===== src/State/Memory.antt =====
-- state.rs: memory vaults, their sessions and delegates, and the ledgers of sessions.
use synapse_sap.Common.{ℕ, Bool}
use synapse_sap.Common.Int.{ℤ, pos}
use synapse_sap.State.Agent.{Pubkey, Hash, Bytes}

pub record MemoryVault : Type 0 where
  pub bump : ℕ
  pub agent : Pubkey
  pub wallet : Pubkey
  pub vault_nonce : Hash
  pub total_sessions : ℕ
  pub total_inscriptions : ℕ
  pub total_bytes_inscribed : ℕ
  pub created_at : ℤ
  pub protocol_version : ℕ
  pub nonce_version : ℕ
  pub last_nonce_rotation : ℤ

abbrev pub vault_protocol_version : ℕ
vault_protocol_version = 1

pub record SessionLedger : Type 0 where
  pub bump : ℕ
  pub vault : Pubkey
  pub session_hash : Hash
  pub sequence_counter : ℕ
  pub total_bytes : ℕ
  pub current_epoch : ℕ
  pub total_epochs : ℕ
  pub created_at : ℤ
  pub last_inscribed_at : ℤ
  pub is_closed : Bool
  pub merkle_root : Hash
  pub total_checkpoints : ℕ
  pub tip_hash : Hash

abbrev pub max_inscription_size : ℕ
max_inscription_size = 750

abbrev pub inscriptions_per_epoch : ℕ
inscriptions_per_epoch = 1000

pub record EpochPage : Type 0 where
  pub bump : ℕ
  pub session : Pubkey
  pub epoch_index : ℕ
  pub start_sequence : ℕ
  pub inscription_count : ℕ
  pub total_bytes : ℕ
  pub first_ts : ℤ
  pub last_ts : ℤ

pub record VaultDelegate : Type 0 where
  pub bump : ℕ
  pub vault : Pubkey
  pub delegate : Pubkey
  pub permissions : ℕ
  pub expires_at : ℤ
  pub created_at : ℤ

abbrev pub permission_inscribe : ℕ
permission_inscribe = 1

abbrev pub max_delegate_duration_secs : ℤ
max_delegate_duration_secs = pos 31536000

pub record MemoryLedger : Type 0 where
  pub bump : ℕ
  pub session : Pubkey
  pub authority : Pubkey
  pub num_entries : ℕ
  pub merkle_root : Hash
  pub latest_hash : Hash
  pub total_data_size : ℕ
  pub created_at : ℤ
  pub updated_at : ℤ
  pub num_pages : ℕ
  pub ring : Bytes

abbrev pub ring_capacity : ℕ
ring_capacity = 4096

pub record LedgerPage : Type 0 where
  pub bump : ℕ
  pub ledger : Pubkey
  pub page_index : ℕ
  pub sealed_at : ℤ
  pub entries_in_page : ℕ
  pub data_size : ℕ
  pub merkle_root_at_seal : Hash
  pub page_data : Bytes
