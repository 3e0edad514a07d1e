-- ===== src/Ledger/Entries.antt =====
-- What `write_ledger` and `seal_ledger` do to the entries of the ring.
use synapse_sap.Common.{
  ◌+◌, ◌≤◌, ◌<◌, ◌≡◌, ◌≢◌, false, sym, ap, ◌∙◌, List, [], ◌∷◌, ◌++◌, length, length-append,
  le_bytes, arith,
}
use synapse_sap.Errors.{ok, >>=-eq-ok}
use synapse_sap.State.{Pubkey, Hash, Bytes, MemoryLedger, LedgerPage, ring_capacity}
use synapse_sap.Checked.{u32_max, u64_max}
use synapse_sap.Runtime.{Runtime, Bank, Clock}
use synapse_sap.Ledger.Ring.{evict, count_entries}
use synapse_sap.Ledger.Handlers.{
  LedgerAccounts, write_ledger, seal_ledger, append_entry, ledger_constraints,
  ledger_session_constraints,
}
use synapse_sap.Ledger.Window.{
  encode, IsEntries, keep, IsLatest, length-encode, encode-append, encode-singleton, keep-IsEntries,
  append-IsEntries, ring_size-append,
}
use synapse_sap.Ledger.Refines.{
  evict_total, evict-encode, keep-IsLatest, decode, decode-encode, count_entries-decode,
}

-- What one write does to the account.
pub record IsWritten (rt : Runtime) (content : Bytes) (hash : Hash) (old new : MemoryLedger)
    : Type 0 where
  pub short : length content ≤ 750
  pub appended : append_entry old.ring content ≡ ok new.ring
  pub counted : new.num_entries ≡ old.num_entries + 1
  pub hashed : new.merkle_root ≡ rt.hash_pair old.merkle_root hash
  pub sized : new.total_data_size ≡ old.total_data_size + length content
  pub pages_kept : new.num_pages ≡ old.num_pages

pub write_ledger-IsWritten :
    (rt : Runtime) (a : LedgerAccounts) (content : Bytes) (hash : Hash) (clock : Clock)
    (out : MemoryLedger)
    → write_ledger rt a content hash clock ≡ ok out
    → IsWritten rt content hash a.ledger out
unfolding write_ledger
write_ledger-IsWritten rt a content hash clock out h = ground arith

pub append_entry-encode :
    (ds : List Bytes) (content ring : Bytes)
    → IsEntries ds
    → length content ≤ 750
    → append_entry (encode ds) content ≡ ok ring
    → ring ≡ encode (keep (2 + length content) ds ++ content ∷ [])
unfolding append_entry
append_entry-encode ds content ring e short h =
    let made =
      evict-encode (length (encode ds)) (2 + length content) ds e (omega arith) (omega arith) in
    let (kept, k, r) =
      >>=-eq-ok (evict (length (encode ds)) (2 + length content) (encode ds)) _ h in
    rw (encode-append (keep (2 + length content) ds) (content ∷ []), encode-singleton content) (cc)

-- Where the ring holds the entries `ds`, a successful `write_ledger` drops the oldest of them, only
-- as many as must go for the new entry to fit in 4096 bytes, and puts the new entry last. A reader
-- of the ring finds exactly these, each of at most 750 bytes.
pub write_ledger_refines :
    (rt : Runtime) (a : LedgerAccounts) (content : Bytes) (hash : Hash) (clock : Clock)
    (out : MemoryLedger) (ds : List Bytes)
    → IsEntries ds
    → a.ledger.ring ≡ encode ds
    → write_ledger rt a content hash clock ≡ ok out
    → (dropped : List Bytes) × (kept : List Bytes) × IsLatest (2 + length content) ds dropped kept
      × (out.ring ≡ encode (kept ++ content ∷ []))
      × (decode (length out.ring) out.ring ≡ kept ++ content ∷ [])
      × (length out.ring ≤ ring_capacity)
      × IsEntries (kept ++ content ∷ [])
write_ledger_refines rt a content hash clock out ds e same h =
    let need = 2 + length content in
    let w = write_ledger-IsWritten rt a content hash clock out h in
    let (dropped, latest) = keep-IsLatest need ds (omega (arith, w.short)) in
    let r =
      append_entry-encode ds content out.ring e w.short
        (ap (λ ring. append_entry ring content) (sym same) ∙ w.appended) in
    let es = append-IsEntries (keep need ds) content (keep-IsEntries need ds e) w.short in
    let all : List Bytes = keep need ds ++ content ∷ [] in
    (
      dropped,
      keep need ds,
      latest,
      r,
      rw r (decode-encode (length (encode all)) all es (omega arith)),
      omega (
        arith,
        ap length r,
        length-encode all,
        ring_size-append (keep need ds) content,
        latest.fits,
      ),
      es,
    )

-- What sealing does to the two accounts, whatever the ring holds.
pub seal_ledger-copies :
    (rt : Runtime) (a : LedgerAccounts) (key : Pubkey) (clock : Clock) (bank bank' : Bank)
    (out : MemoryLedger) (page : LedgerPage)
    → seal_ledger rt a key clock bank ≡ ok (out, page, bank')
    → (page.page_data ≡ a.ledger.ring)
      × (page.entries_in_page ≡ count_entries (length a.ledger.ring) a.ledger.ring)
      × (page.page_index ≡ a.ledger.num_pages)
      × (page.merkle_root_at_seal ≡ out.merkle_root)
      × (out.num_pages ≡ a.ledger.num_pages + 1)
      × (out.ring ≡ [])
unfolding seal_ledger
seal_ledger-copies rt a key clock bank bank' out page h = ground arith

pub seal_ledger-keeps :
    (rt : Runtime) (a : LedgerAccounts) (key : Pubkey) (clock : Clock) (bank bank' : Bank)
    (out : MemoryLedger) (page : LedgerPage)
    → seal_ledger rt a key clock bank ≡ ok (out, page, bank')
    → (out.num_entries ≡ a.ledger.num_entries)
      × (out.merkle_root ≡ a.ledger.merkle_root)
      × (out.total_data_size ≡ a.ledger.total_data_size)
unfolding seal_ledger
seal_ledger-keeps rt a key clock bank bank' out page h = ground arith

-- A page that `seal_ledger` makes of a ring with the entries `ds` is read back as `ds`, counts them,
-- carries the next page number and the root of the moment; the ring is empty after that.
pub seal_ledger_roundtrip :
    (rt : Runtime) (a : LedgerAccounts) (key : Pubkey) (clock : Clock) (bank bank' : Bank)
    (out : MemoryLedger) (page : LedgerPage) (ds : List Bytes)
    → IsEntries ds
    → a.ledger.ring ≡ encode ds
    → seal_ledger rt a key clock bank ≡ ok (out, page, bank')
    → (decode (length page.page_data) page.page_data ≡ ds)
      × (page.entries_in_page ≡ length ds)
      × (page.page_index ≡ a.ledger.num_pages)
      × (page.merkle_root_at_seal ≡ out.merkle_root)
      × (out.num_pages ≡ a.ledger.num_pages + 1)
      × (out.ring ≡ [])
seal_ledger_roundtrip rt a key clock bank bank' out page ds e same h =
    let (copied, counted, index, root, pages, empty) =
      seal_ledger-copies rt a key clock bank bank' out page h in
    let read = decode-encode (length (encode ds)) ds e (omega arith) in
    (
      rw (copied, same) read,
      rw (counted, same) (count_entries-decode (length (encode ds)) (encode ds) ∙ ap length read),
      index,
      root,
      pages,
      empty,
    )

-- Whatever the ring holds, `write_ledger` returns: with the accounts as they must be, an entry of 1
-- to 750 bytes whose hash is not zero, and counters below their limits, it gives a ledger whose ring
-- has at most 4096 bytes.
pub write_ledger_total :
    (rt : Runtime) (a : LedgerAccounts) (content : Bytes) (hash : Hash) (clock : Clock)
    → ledger_session_constraints rt a ≡ ok tt
    → a.session.is_closed ≡ false
    → ledger_constraints rt a ≡ ok tt
    → 0 < length content
    → length content ≤ 750
    → hash ≢ 0
    → a.ledger.num_entries < u32_max
    → a.ledger.total_data_size + length content ≤ u64_max
    → (out : MemoryLedger) × (write_ledger rt a content hash clock ≡ ok out)
      × (length out.ring ≤ ring_capacity)
unfolding write_ledger append_entry
write_ledger_total rt a content hash clock c o c' some_data short h n t =
    let l = a.ledger in
    let (kept, e, fits) =
      evict_total (length l.ring) (2 + length content) l.ring (omega arith) (omega arith) in
    (
      record l {
        merkle_root = rt.hash_pair l.merkle_root hash;
        num_entries = l.num_entries + 1;
        total_data_size = l.total_data_size + length content;
        latest_hash = hash;
        updated_at = clock.unix_timestamp;
        ring = kept ++ (le_bytes 2 (length content) ++ content);
      },
      ground arith,
      omega (arith, length-append kept (le_bytes 2 (length content) ++ content)),
    )
