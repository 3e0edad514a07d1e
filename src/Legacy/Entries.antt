-- ===== src/Legacy/Entries.antt =====
-- instructions/memory.rs: the four handlers. A string is its bytes.
use synapse_sap.Common.{ℕ, Option, none, some, leb, ◌==◌, length}
use synapse_sap.Errors.{
  Result, ok, require, constraint, ◌>>=◌, ◌>>◌, constraint_seeds, constraint_raw,
  content_type_too_long, ipfs_cid_too_long, chunk_data_too_large,
}
use synapse_sap.Checked.{checked_add_u8}
use synapse_sap.State.{
  Pubkey, Hash, Bytes, MemoryEntry, MemoryChunk, max_content_type_len, max_ipfs_cid_len,
  max_chunk_size,
}
use synapse_sap.Runtime.{Runtime, Bank, Clock}
use synapse_sap.Seeds.{memory_seeds, chunk_seeds, at_address}
use synapse_sap.Owner.{Owner, owner_constraints}

-- `if let Some(ref cid) = ipfs_cid { require!(…) }`
abbrev check_cid : Option Bytes → Result (Unit {0})
check_cid none = ok tt
check_cid (some cid) = require (leb (length cid) max_ipfs_cid_len) ipfs_cid_too_long

module _ (rt : Runtime) where
  unfoldable pub store :
      Owner → Pubkey → Hash → Bytes → Option Bytes → ℕ → Clock → Bank → Result (MemoryEntry × Bank)
  unfolding owner_constraints
  store owner entry_key entry_hash content_type ipfs_cid total_size clock bank = do
    let seeds = memory_seeds owner.agent_key entry_hash
    owner_constraints rt owner
    constraint (at_address rt seeds entry_key) constraint_seeds
    bank₁ ← rt.init owner.wallet entry_key bank
    require (leb (length content_type) max_content_type_len) content_type_too_long
    check_cid ipfs_cid
    ok (
      record {
        bump = (rt.find_program_address seeds).1;
        agent = owner.agent_key;
        entry_hash = entry_hash;
        content_type = content_type;
        ipfs_cid = ipfs_cid;
        total_chunks = 0;
        total_size = total_size;
        created_at = clock.unix_timestamp;
        updated_at = clock.unix_timestamp;
      },
      bank₁,
    )

  -- The entry is any account of the program that holds an entry of this agent.
  unfoldable pub entry_constraints : Owner → MemoryEntry → Result (Unit {0})
  unfolding owner_constraints
  entry_constraints owner entry = do
    owner_constraints rt owner
    constraint (entry.agent == owner.agent_key) constraint_raw

  unfoldable pub append_chunk :
      Owner
      → Pubkey
      → MemoryEntry
      → Pubkey
      → ℕ
      → Bytes
      → Clock
      → Bank
      → Result (MemoryEntry × MemoryChunk × Bank)
  unfolding entry_constraints
  append_chunk owner entry_key entry chunk_key chunk_index content clock bank = do
    let seeds = chunk_seeds entry_key chunk_index
    entry_constraints owner entry
    constraint (at_address rt seeds chunk_key) constraint_seeds
    bank₁ ← rt.init owner.wallet chunk_key bank
    require (leb (length content) max_chunk_size) chunk_data_too_large
    chunks ← checked_add_u8 entry.total_chunks 1
    ok (
      record entry { total_chunks = chunks; updated_at = clock.unix_timestamp },
      record {
        bump = (rt.find_program_address seeds).1;
        memory_entry = entry_key;
        chunk_index = chunk_index;
        content = content;
      },
      bank₁,
    )

  unfoldable pub close_memory_entry : Owner → Pubkey → MemoryEntry → Bank → Result Bank
  unfolding entry_constraints
  close_memory_entry owner entry_key entry bank = do
    entry_constraints owner entry
    rt.close entry_key owner.wallet bank

  -- The entry is not written.
  unfoldable pub close_memory_chunk :
      Owner → Pubkey → MemoryEntry → Pubkey → MemoryChunk → Bank → Result Bank
  unfolding entry_constraints
  close_memory_chunk owner entry_key entry chunk_key chunk bank = do
    entry_constraints owner entry
    constraint (chunk.memory_entry == entry_key) constraint_raw
    rt.close chunk_key owner.wallet bank
