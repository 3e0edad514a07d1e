-- ===== src/Ledger/Ring.antt =====
-- instructions/ledger.rs: the two loops over the bytes of a ring. An entry is the length of its data
-- in two little-endian bytes, and the data.
use synapse_sap.Common.{ℕ, zero, suc, ◌+◌, ◌*◌, [], ◌∷◌, leb, ltb, if◌then◌else◌, length, drop}
use synapse_sap.Errors.{Result, ok, err, out_of_fuel}
use synapse_sap.State.{Bytes, ring_capacity}

-- `u16::from_le_bytes([ring[0], ring[1]])`, of a ring that has two bytes.
abbrev pub front_len : Bytes → ℕ
front_len [] = 0
front_len (low ∷ []) = 0
front_len (low ∷ high ∷ rest) = low + 256 * high

-- `while ring.len() + entry_size > RING_CAPACITY`.
unfoldable pub evict : ℕ → ℕ → Bytes → Result Bytes
evict zero entry_size ring =
    if leb (length ring + entry_size) ring_capacity then ok ring else err out_of_fuel
evict (suc fuel) entry_size ring =
    let drained = evict fuel entry_size (drop (2 + front_len ring) ring) in
    if leb (length ring + entry_size) ring_capacity
    then ok ring
    else if ltb (length ring) 2
    then ok []
    else if ltb (length ring) (2 + front_len ring)
    then ok []
    else drained

-- The loop of `seal_ledger_handler`, on the bytes from `pos` on.
unfoldable pub count_entries : ℕ → Bytes → ℕ
count_entries zero rest = 0
count_entries (suc fuel) rest =
    let more = suc (count_entries fuel (drop (2 + front_len rest) rest)) in
    if ltb (length rest) 2 then 0 else if ltb (length rest) (2 + front_len rest) then 0 else more
