-- ===== src/Seeds.antt =====
-- seeds.rs: the prefixes of the program's derived addresses, and the address of each kind of
-- account, as the `seeds = [...]` constraints give it.
use Prim.Native.Char.{code}
use Prim.Native.String.{String}
use synapse_sap.Common.{ℕ, Bool, some, List, [], ◌∷◌, ◌++◌, ◌==◌, opt_eq, le_bytes, be_bytes}
use synapse_sap.State.{Pubkey, Hash, Bytes}
use synapse_sap.Runtime.{Runtime}

-- The bytes of an ASCII text.
abbrev pub codes : String → Bytes
codes String.[] = []
codes (String.◌∷◌ c s) = code c ∷ codes s

abbrev pub key_bytes : Pubkey → Bytes
key_bytes = be_bytes 32

unfoldable pub agent_seeds : Pubkey → List Bytes
agent_seeds wallet = codes "sap_agent" ∷ key_bytes wallet ∷ []

unfoldable pub stats_seeds : Pubkey → List Bytes
stats_seeds agent = codes "sap_stats" ∷ key_bytes agent ∷ []

unfoldable pub pricing_seeds : Pubkey → List Bytes
pricing_seeds agent = codes "sap_pricing" ∷ key_bytes agent ∷ []

unfoldable pub stake_seeds : Pubkey → List Bytes
stake_seeds agent = codes "sap_stake" ∷ key_bytes agent ∷ []

unfoldable pub escrow_seeds : Pubkey → Pubkey → ℕ → List Bytes
escrow_seeds agent depositor nonce =
    codes "sap_escrow_v2" ∷ key_bytes agent ∷ key_bytes depositor ∷ le_bytes 8 nonce ∷ []

unfoldable pub pending_seeds : Pubkey → ℕ → List Bytes
pending_seeds escrow index = codes "sap_pending" ∷ key_bytes escrow ∷ le_bytes 8 index ∷ []

unfoldable pub dispute_seeds : Pubkey → List Bytes
dispute_seeds pending = codes "sap_dispute" ∷ key_bytes pending ∷ []

unfoldable pub receipt_seeds : Pubkey → ℕ → List Bytes
receipt_seeds escrow index = codes "sap_receipt" ∷ key_bytes escrow ∷ le_bytes 4 index ∷ []

unfoldable pub subscription_seeds : Pubkey → Pubkey → ℕ → List Bytes
subscription_seeds agent subscriber sub_id =
    codes "sap_sub" ∷ key_bytes agent ∷ key_bytes subscriber ∷ le_bytes 8 sub_id ∷ []

unfoldable pub global_seeds : List Bytes
global_seeds = codes "sap_global" ∷ []

unfoldable pub feedback_seeds : Pubkey → Pubkey → List Bytes
feedback_seeds agent reviewer = codes "sap_feedback" ∷ key_bytes agent ∷ key_bytes reviewer ∷ []

unfoldable pub attest_seeds : Pubkey → Pubkey → List Bytes
attest_seeds agent attester = codes "sap_attest" ∷ key_bytes agent ∷ key_bytes attester ∷ []

unfoldable pub capability_seeds : Hash → List Bytes
capability_seeds hash = codes "sap_cap_idx" ∷ be_bytes 32 hash ∷ []

unfoldable pub protocol_seeds : Hash → List Bytes
protocol_seeds hash = codes "sap_proto_idx" ∷ be_bytes 32 hash ∷ []

unfoldable pub index_page_seeds : Pubkey → ℕ → List Bytes
index_page_seeds parent page_index =
    codes "sap_idx_page" ∷ key_bytes parent ∷ (page_index ∷ []) ∷ []

unfoldable pub vault_seeds : Pubkey → List Bytes
vault_seeds agent = codes "sap_vault" ∷ key_bytes agent ∷ []

unfoldable pub session_seeds : Pubkey → Hash → List Bytes
session_seeds vault session_hash =
    codes "sap_session" ∷ key_bytes vault ∷ be_bytes 32 session_hash ∷ []

unfoldable pub epoch_seeds : Pubkey → ℕ → List Bytes
epoch_seeds session epoch_index =
    codes "sap_epoch" ∷ key_bytes session ∷ le_bytes 4 epoch_index ∷ []

unfoldable pub delegate_seeds : Pubkey → Pubkey → List Bytes
delegate_seeds vault delegate = codes "sap_delegate" ∷ key_bytes vault ∷ key_bytes delegate ∷ []

unfoldable pub ledger_seeds : Pubkey → List Bytes
ledger_seeds session = codes "sap_ledger" ∷ key_bytes session ∷ []

unfoldable pub page_seeds : Pubkey → ℕ → List Bytes
page_seeds ledger page_index = codes "sap_page" ∷ key_bytes ledger ∷ le_bytes 4 page_index ∷ []

unfoldable pub shard_seeds : ℕ → List Bytes
shard_seeds shard_index = codes "sap_shard" ∷ (shard_index ∷ []) ∷ []

unfoldable pub tool_seeds : Pubkey → Hash → List Bytes
tool_seeds agent tool_name_hash =
    codes "sap_tool" ∷ key_bytes agent ∷ be_bytes 32 tool_name_hash ∷ []

unfoldable pub tool_category_seeds : ℕ → List Bytes
tool_category_seeds category = codes "sap_tool_cat" ∷ (category ∷ []) ∷ []

unfoldable pub checkpoint_seeds : Pubkey → ℕ → List Bytes
checkpoint_seeds session checkpoint_index =
    codes "sap_checkpoint" ∷ key_bytes session ∷ le_bytes 4 checkpoint_index ∷ []

unfoldable pub memory_seeds : Pubkey → Hash → List Bytes
memory_seeds agent entry_hash = codes "sap_memory" ∷ key_bytes agent ∷ be_bytes 32 entry_hash ∷ []

unfoldable pub chunk_seeds : Pubkey → ℕ → List Bytes
chunk_seeds entry chunk_index = codes "sap_mem_chunk" ∷ key_bytes entry ∷ (chunk_index ∷ []) ∷ []

unfoldable pub plugin_seeds : Pubkey → ℕ → List Bytes
plugin_seeds agent plugin_type = codes "sap_plugin" ∷ key_bytes agent ∷ (plugin_type ∷ []) ∷ []

unfoldable pub buffer_seeds : Pubkey → ℕ → List Bytes
buffer_seeds session page_index =
    codes "sap_buffer" ∷ key_bytes session ∷ le_bytes 4 page_index ∷ []

unfoldable pub digest_seeds : Pubkey → List Bytes
digest_seeds session = codes "sap_digest" ∷ key_bytes session ∷ []

-- The seeds of an account with its bump.
abbrev pub with_bump : List Bytes → ℕ → List Bytes
with_bump seeds bump = seeds ++ (bump ∷ []) ∷ []

module _ (rt : Runtime) where
  -- `seeds = […], bump`: the key is the derived address.
  unfoldable pub at_address : List Bytes → Pubkey → Bool
  at_address seeds key = key == (rt.find_program_address seeds).0

  -- `seeds = […], bump = account.bump`.
  unfoldable pub at_bump : List Bytes → ℕ → Pubkey → Bool
  at_bump seeds bump key = opt_eq (rt.create_program_address (with_bump seeds bump)) (some key)
