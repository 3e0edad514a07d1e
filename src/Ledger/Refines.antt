-- ===== src/Ledger/Refines.antt =====
-- The loops of the ring, on any bytes and on the bytes of entries.
use synapse_sap.Common.{
  ℕ, zero, suc, ◌+◌, ◌≤◌, ◌<◌, ◌≡◌, refl, ap, ◌∙◌, inl, inr, List, [], ◌∷◌, ◌++◌, leb, ltb,
  if◌then◌else◌, length, take, drop, arith, Bool-cases,
}
use synapse_sap.Errors.{ok}
use synapse_sap.State.{Bytes, ring_capacity}
use synapse_sap.Ledger.Ring.{front_len, evict, count_entries}
use synapse_sap.Ledger.Window.{
  encode, ring_size, IsEntries, keep, IsLatest, length-encode, front_len-encode, drop-encode,
  take-encode,
}

length-drop : (n : ℕ) (xs : Bytes) → n ≤ length xs → length (drop n xs) + n ≡ length xs
length-drop zero xs h = omega arith
length-drop (suc n) [] h = absurd (omega arith)
length-drop (suc n) (x ∷ xs) h = omega (arith, length-drop n xs (omega arith))

-- The last entry that went, where the first one had to.
last_dropped :
    (need : ℕ) (d : Bytes) (ds dropped kept : List Bytes)
    → ring_capacity < ring_size (d ∷ ds) + need
    → IsLatest need ds dropped kept
    → (older : List Bytes) × (last : Bytes) × (d ∷ dropped ≡ older ++ last ∷ [])
      × (ring_capacity < ring_size (last ∷ kept) + need)
last_dropped need d ds dropped kept full l = elim l.needed [
  | inl none_before ↦ (
    [],
    d,
    ap (λ xs. d ∷ xs) none_before,
    omega (arith, ap ring_size (l.split ∙ ap (λ xs. xs ++ kept) none_before)),
  )
  | inr (older, last, e, over) ↦ (d ∷ older, last, ap (λ xs. d ∷ xs) e, over)
]

-- Whatever the ring holds, also bytes that `write_ledger` never wrote, the loop ends within as many
-- rounds as the ring has bytes, and leaves room for an entry that fits an empty ring.
pub evict_total :
    (fuel need : ℕ) (ring : Bytes)
    → length ring ≤ fuel
    → need ≤ ring_capacity
    → (kept : Bytes) × (evict fuel need ring ≡ ok kept) × (length kept + need ≤ ring_capacity)
unfolding evict
evict_total zero need ring l h = (ring, ground arith, omega arith)
evict_total (suc fuel) need ring l h = elim (Bool-cases (leb (length ring + need) ring_capacity)) [
  | inl fits ↦ (ring, rw fits refl, ground arith)
  | inr full ↦ elim (Bool-cases (ltb (length ring) 2)) [
    | inl none_left ↦ ([], rw (full, none_left) refl, omega arith)
    | inr more ↦ elim (Bool-cases (ltb (length ring) (2 + front_len ring))) [
      | inl cut ↦ ([], rw (full, more, cut) refl, omega arith)
      | inr whole ↦
          rw (full, more, whole)
            (evict_total fuel need (drop (2 + front_len ring) ring)
              (ground (arith, length-drop (2 + front_len ring) ring)) h)
    ]
  ]
]

-- On the bytes of entries the loop is `keep`.
pub evict-encode :
    (fuel need : ℕ) (ds : List Bytes)
    → IsEntries ds
    → need ≤ ring_capacity
    → length (encode ds) ≤ fuel
    → evict fuel need (encode ds) ≡ ok (encode (keep need ds))
unfolding evict keep
evict-encode zero need [] e h l = ground (arith, length-encode [])
evict-encode zero need (d ∷ ds) e h l = absurd (omega (arith, length-encode (d ∷ ds)))
evict-encode (suc fuel) need [] e h l = ground (arith, length-encode [])
evict-encode (suc fuel) need (d ∷ ds) e h l = ground (
  arith,
  length-encode (d ∷ ds),
  length-encode ds,
  front_len-encode d ds e.0,
  drop-encode d ds,
  evict-encode fuel need ds e.1 h,
)

-- `keep` is the window: the oldest entries go, and only as many as must.
pub keep-IsLatest :
    (need : ℕ) (ds : List Bytes)
    → need ≤ ring_capacity
    → (dropped : List Bytes) × IsLatest need ds dropped (keep need ds)
unfolding keep
keep-IsLatest need [] h = ([], record { split = refl; fits = omega arith; needed = inl refl })
keep-IsLatest need (d ∷ ds) h = elim (Bool-cases (leb (ring_size (d ∷ ds) + need) ring_capacity)) [
  | inl fits ↦ rw fits ([], record { split = refl; fits = ground arith; needed = inl refl })
  | inr full ↦ rw full (
      let (dropped, l) = keep-IsLatest need ds h in
      (
        d ∷ dropped,
        record {
          split = ap (λ xs. d ∷ xs) l.split;
          fits = l.fits;
          needed = inr (last_dropped need d ds dropped (keep need ds) (ground arith) l);
        },
      ))
]

-- A reader of the wire format.
pub decode : ℕ → Bytes → List Bytes
decode zero rest = []
decode (suc fuel) rest =
    let more = take (front_len rest) (drop 2 rest) ∷ decode fuel (drop (2 + front_len rest) rest) in
    if ltb (length rest) 2 then [] else if ltb (length rest) (2 + front_len rest) then [] else more

pub decode-encode :
    (fuel : ℕ) (ds : List Bytes)
    → IsEntries ds
    → length (encode ds) ≤ fuel
    → decode fuel (encode ds) ≡ ds
unfolding decode
decode-encode zero [] e l = refl
decode-encode zero (d ∷ ds) e l = absurd (omega (arith, length-encode (d ∷ ds)))
decode-encode (suc fuel) [] e l = ground (arith, length-encode [])
decode-encode (suc fuel) (d ∷ ds) e l = ground (
  arith,
  length-encode (d ∷ ds),
  length-encode ds,
  front_len-encode d ds e.0,
  drop-encode d ds,
  take-encode d ds,
  decode-encode fuel ds e.1,
)

-- The count of `seal_ledger` is the number of the entries that the reader finds, in any bytes.
pub count_entries-decode :
    (fuel : ℕ) (rest : Bytes) → count_entries fuel rest ≡ length (decode fuel rest)
unfolding decode count_entries
count_entries-decode zero rest = refl
count_entries-decode (suc fuel) rest =
    ground (arith, count_entries-decode fuel (drop (2 + front_len rest) rest))
