-- ===== src/Index/Members.antt =====
-- The list operations of the indexes (`Vec` of the standard library, as the handlers use it), and
-- how often an agent stands in a list, for all agents at once.
use synapse_sap.Common.{
  ℕ, zero, suc, ◌+◌, ◌<◌, ◌≡◌, refl, ap, map, Bool, true, false, Option, none, some, List, [], ◌∷◌,
  ◌++◌, ◌==◌, if◌then◌else◌, length, arith,
}
use synapse_sap.State.{Pubkey}
use mathlib.Core.Option

-- `agents.contains(&key)`
abbrev pub contains : List Pubkey → Pubkey → Bool
contains [] key = false
contains (x ∷ xs) key = if x == key then true else contains xs key

-- `agents.iter().position(|a| *a == key)`
unfoldable pub position : List Pubkey → Pubkey → Option ℕ
position [] key = none
position (x ∷ xs) key = if x == key then some 0 else Option.map (λ i. suc i) (position xs key)

abbrev last {ℓ} : {A : Type ℓ} → A → List A → A
last x [] = x
last x (y ∷ ys) = last y ys

abbrev but_last {ℓ} : {A : Type ℓ} → A → List A → List A
but_last x [] = []
but_last x (y ∷ ys) = x ∷ but_last y ys

-- `agents.swap_remove(pos)`: the last element takes the place of the one that goes.
unfoldable pub swap_remove {ℓ} : {A : Type ℓ} → List A → ℕ → List A
swap_remove [] i = []
swap_remove (x ∷ []) zero = []
swap_remove (x ∷ y ∷ ys) zero = last y ys ∷ but_last y ys
swap_remove (x ∷ xs) (suc i) = x ∷ swap_remove xs i

-- How often a key stands in a list.
abbrev pub count : Pubkey → List Pubkey → ℕ
count key [] = 0
count key (x ∷ xs) = (if x == key then 1 else 0) + count key xs

last-map {ℓ} :
    {A : Type ℓ} (f : A → Pubkey) (x : A) (xs : List A) → f (last x xs) ≡ last (f x) (map f xs)
last-map f x [] = refl
last-map f x (y ∷ ys) = last-map f y ys

map-but_last {ℓ} :
    {A : Type ℓ} (f : A → Pubkey) (x : A) (xs : List A)
    → map f (but_last x xs) ≡ but_last (f x) (map f xs)
map-but_last f x [] = refl
map-but_last f x (y ∷ ys) = ap (λ zs. f x ∷ zs) (map-but_last f y ys)

pub map-swap_remove {ℓ} :
    {A : Type ℓ} (f : A → Pubkey) (xs : List A) (i : ℕ)
    → map f (swap_remove xs i) ≡ swap_remove (map f xs) i
unfolding swap_remove
map-swap_remove f [] i = refl
map-swap_remove f (x ∷ []) zero = refl
map-swap_remove f (x ∷ y ∷ ys) zero = cc (last-map f y ys, map-but_last f y ys)
map-swap_remove f (x ∷ xs) (suc i) = ap (λ ys. f x ∷ ys) (map-swap_remove f xs i)

count-last :
    (k x : Pubkey) (xs : List Pubkey) → count k (last x xs ∷ but_last x xs) ≡ count k (x ∷ xs)
count-last k x [] = refl
count-last k x (y ∷ ys) = omega (arith, count-last k y ys)

length-but_last : (x : Pubkey) (xs : List Pubkey) → length (but_last x xs) ≡ length xs
length-but_last x [] = refl
length-but_last x (y ∷ ys) = omega (arith, length-but_last y ys)

pub count-append : (k x : Pubkey) (xs : List Pubkey) → count k (xs ++ x ∷ []) ≡ count k (x ∷ xs)
count-append k x [] = refl
count-append k x (y ∷ ys) = omega (arith, count-append k x ys)

pub count-contains : (k : Pubkey) (xs : List Pubkey) → contains xs k ≡ false → count k xs ≡ 0
count-contains k [] h = refl
count-contains k (x ∷ xs) h = ground (arith, count-contains k xs)

pub contains-count : (k : Pubkey) (xs : List Pubkey) → contains xs k ≡ true → 0 < count k xs
contains-count k [] h = cc
contains-count k (x ∷ xs) h = ground (arith, contains-count k xs)

pub position-none : (k : Pubkey) (xs : List Pubkey) → position xs k ≡ none → count k xs ≡ 0
unfolding position
position-none k [] h = refl
position-none k (x ∷ xs) h = ground (arith, position-none k xs)

-- What goes at the position of a key is that key, once.
pub count-swap_remove :
    (j k : Pubkey) (xs : List Pubkey) (i : ℕ)
    → position xs k ≡ some i
    → count j (swap_remove xs i) + (if k == j then 1 else 0) ≡ count j xs
unfolding position swap_remove
count-swap_remove j k [] i h = ground arith
count-swap_remove j k (x ∷ []) zero h = ground arith
count-swap_remove j k (x ∷ y ∷ ys) zero h = ground (arith, count-last j y ys)
count-swap_remove j k (x ∷ xs) (suc i) h = ground (arith, count-swap_remove j k xs i)

pub length-swap_remove :
    (k : Pubkey) (xs : List Pubkey) (i : ℕ)
    → position xs k ≡ some i
    → length (swap_remove xs i) + 1 ≡ length xs
unfolding position swap_remove
length-swap_remove k [] i h = ground arith
length-swap_remove k (x ∷ []) zero h = ground arith
length-swap_remove k (x ∷ y ∷ ys) zero h = ground (arith, length-but_last y ys)
length-swap_remove k (x ∷ xs) (suc i) h = ground (arith, length-swap_remove k xs i)
