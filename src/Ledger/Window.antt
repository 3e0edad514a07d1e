-- ===== src/Ledger/Window.antt =====
-- The ring as a window on the entries: its contents by entry, and what making room leaves of them.
use synapse_sap.Common.{
  ℕ, ◌+◌, ◌≤◌, ◌<◌, ◌≡◌, refl, ap, ◌∙◌, ◌⊎◌, List, [], ◌∷◌, ◌++◌, leb, if◌then◌else◌, length, take,
  drop, le_bytes, length-append, arith,
}
use mathlib.Core.List.{append-nil, append_assoc}
use synapse_sap.State.{Bytes, ring_capacity}
use synapse_sap.Ledger.Ring.{front_len}

-- The bytes of the entries, the oldest first.
unfoldable pub encode : List Bytes → Bytes
encode [] = []
encode (d ∷ ds) = le_bytes 2 (length d) ++ (d ++ encode ds)

abbrev pub ring_size : List Bytes → ℕ
ring_size [] = 0
ring_size (d ∷ ds) = 2 + length d + ring_size ds

-- Every entry is as `write_ledger` takes it.
abbrev pub IsEntries : List Bytes → Type 0
IsEntries [] = Unit {0}
IsEntries (d ∷ ds) = (length d ≤ 750) × IsEntries ds

pub length-encode : (ds : List Bytes) → length (encode ds) ≡ ring_size ds
unfolding encode
length-encode [] = refl
length-encode (d ∷ ds) = omega (arith, length-append d (encode ds), length-encode ds)

pub encode-append : (ds es : List Bytes) → encode (ds ++ es) ≡ encode ds ++ encode es
unfolding encode
encode-append [] es = refl
encode-append (d ∷ ds) es = simp (encode-append ds es, append_assoc)

pub encode-singleton : (d : Bytes) → encode (d ∷ []) ≡ le_bytes 2 (length d) ++ d
unfolding encode
encode-singleton d = rw append-nil

drop-append : (xs ys : Bytes) → drop (length xs) (xs ++ ys) ≡ ys
drop-append [] ys = refl
drop-append (x ∷ xs) ys = drop-append xs ys

take-append : (xs ys : Bytes) → take (length xs) (xs ++ ys) ≡ xs
take-append [] ys = refl
take-append (x ∷ xs) ys = ap (λ zs. x ∷ zs) (take-append xs ys)

-- The first entry of a ring.
pub front_len-encode :
    (d : Bytes) (ds : List Bytes) → length d ≤ 750 → front_len (encode (d ∷ ds)) ≡ length d
unfolding encode
front_len-encode d ds h = omega arith

drop-two : (n : ℕ) (a b : ℕ) (xs : Bytes) → drop (2 + n) (a ∷ b ∷ xs) ≡ drop n xs
drop-two n a b xs = ground arith

pub drop-encode : (d : Bytes) (ds : List Bytes) → drop (2 + length d) (encode (d ∷ ds)) ≡ encode ds
unfolding encode
drop-encode d ds = drop-two (length d) _ _ (d ++ encode ds) ∙ drop-append d (encode ds)

pub take-encode : (d : Bytes) (ds : List Bytes) → take (length d) (drop 2 (encode (d ∷ ds))) ≡ d
unfolding encode
take-encode d ds = take-append d (encode ds)

-- What is left once there is room for `need` more bytes: the oldest entries go first.
unfoldable pub keep : ℕ → List Bytes → List Bytes
keep need [] = []
keep need (d ∷ ds) =
    let rest = keep need ds in
    if leb (ring_size (d ∷ ds) + need) ring_capacity then d ∷ ds else rest

-- What goes is the start of the list, and no more of it than must: with its last entry the rest
-- would not fit.
pub record IsLatest (need : ℕ) (ds dropped kept : List Bytes) : Type 0 where
  pub split : ds ≡ dropped ++ kept
  pub fits : ring_size kept + need ≤ ring_capacity
  pub needed :
      (dropped ≡ [])
      ⊎ ((older : List Bytes) × (d : Bytes) × (dropped ≡ older ++ d ∷ [])
          × (ring_capacity < ring_size (d ∷ kept) + need))

pub keep-IsEntries : (need : ℕ) (ds : List Bytes) → IsEntries ds → IsEntries (keep need ds)
unfolding keep
keep-IsEntries need [] e = tt
keep-IsEntries need (d ∷ ds) e = ground (arith, keep-IsEntries need ds e.1)

pub append-IsEntries :
    (ds : List Bytes) (d : Bytes) → IsEntries ds → length d ≤ 750 → IsEntries (ds ++ d ∷ [])
append-IsEntries [] d e short = (short, tt)
append-IsEntries (x ∷ ds) d e short = (e.0, append-IsEntries ds d e.1 short)

pub ring_size-append :
    (ds : List Bytes) (d : Bytes) → ring_size (ds ++ d ∷ []) ≡ ring_size ds + 2 + length d
ring_size-append [] d = omega arith
ring_size-append (x ∷ ds) d = omega (arith, ring_size-append ds d)
