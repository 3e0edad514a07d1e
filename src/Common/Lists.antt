-- ===== src/Common/Lists.antt =====
-- Lists measured and indexed by native numbers, under the library's names, and byte lists.
use Prim.Native.Nat.{ℕ, zero, suc, ◌+◌, ◌*◌, ◌/◌, ◌%◌}
use mathlib.Core.Path.{◌≡◌, refl}
use mathlib.Core.Bool.{Bool, true, false, ◌&&◌}
use mathlib.Core.List.{List, [], ◌∷◌, ◌++◌}
use mathlib.Core.Option.{Option, none, some}
use native.Mathlib.Omega.{arith}
use synapse_sap.Common.Tests.{◌==◌}

module _ {ℓ} {A : Type ℓ} where
  abbrev pub length : List A → ℕ
  length [] = 0
  length (x ∷ xs) = suc (length xs)

  abbrev pub get_elem? : List A → ℕ → Option A
  get_elem? [] i = none
  get_elem? (x ∷ xs) zero = some x
  get_elem? (x ∷ xs) (suc i) = get_elem? xs i

  abbrev pub take : ℕ → List A → List A
  take zero xs = []
  take (suc n) [] = []
  take (suc n) (x ∷ xs) = x ∷ take n xs

  abbrev pub drop : ℕ → List A → List A
  drop zero xs = xs
  drop (suc n) [] = []
  drop (suc n) (x ∷ xs) = drop n xs

  pub length-append : (xs ys : List A) → length (xs ++ ys) ≡ length xs + length ys
  length-append [] ys = omega arith
  length-append (x ∷ xs) ys = omega (arith, length-append xs ys)

-- `data[from .. from + len]`.
abbrev pub slice : List ℕ → ℕ → ℕ → List ℕ
slice xs from len = take len (drop from xs)

-- `==` on byte slices.
abbrev pub bytes_eq : List ℕ → List ℕ → Bool
bytes_eq [] [] = true
bytes_eq [] (y ∷ ys) = false
bytes_eq (x ∷ xs) [] = false
bytes_eq (x ∷ xs) (y ∷ ys) = x == y && bytes_eq xs ys

pub bytes_eq→eq : (xs ys : List ℕ) → bytes_eq xs ys ≡ true → xs ≡ ys
bytes_eq→eq [] [] h = refl
bytes_eq→eq [] (y ∷ ys) h = cc
bytes_eq→eq (x ∷ xs) [] h = cc
bytes_eq→eq (x ∷ xs) (y ∷ ys) h = ground (arith, bytes_eq→eq xs ys)

pub bytes_eq_refl : (xs : List ℕ) → bytes_eq xs xs ≡ true
bytes_eq_refl [] = refl
bytes_eq_refl (x ∷ xs) = ground (arith, bytes_eq_refl xs)

-- `n` little-endian bytes of a number, as `to_le_bytes`.
abbrev pub le_bytes : ℕ → ℕ → List ℕ
le_bytes zero k = []
le_bytes (suc n) k = (k % 256) ∷ le_bytes n (k / 256)

-- The number that little-endian bytes spell, as `from_le_bytes`.
abbrev pub of_le_bytes : List ℕ → ℕ
of_le_bytes [] = 0
of_le_bytes (b ∷ bs) = b + 256 * of_le_bytes bs

-- `n` bytes of a number, the most significant first: a key or a hash is the number that its
-- bytes spell in this order, so that the order of numbers is the lexicographic order of bytes.
abbrev pub be_bytes : ℕ → ℕ → List ℕ
be_bytes zero k = []
be_bytes (suc n) k = be_bytes n (k / 256) ++ (k % 256) ∷ []

-- The number that bytes spell, the most significant first.
abbrev pub of_be_bytes : ℕ → List ℕ → ℕ
of_be_bytes acc [] = acc
of_be_bytes acc (b ∷ bs) = of_be_bytes (acc * 256 + b) bs
