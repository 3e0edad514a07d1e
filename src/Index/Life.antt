-- ===== src/Index/Life.antt =====
-- What the kinds of index share: a set of agents behind a list. The interface is filled by
-- the handlers of each kind, and the life of an index is told once.
use synapse_sap.Common.{
  ℕ, ◌+◌, ◌≤◌, ◌≡◌, Bool, true, false, List, [], ◌∷◌, ◌++◌, ◌==◌, if◌then◌else◌, length, none, some,
  length-append, Bool-cases, inl, inr, arith,
}
use synapse_sap.State.{Pubkey}
use synapse_sap.Index.Members.{
  contains, position, swap_remove, count, count-append, count-contains, contains-count,
  position-none, count-swap_remove, length-swap_remove,
}

-- A set of agents, and the operations on it.
abbrev pub AgentSet : Type 0
AgentSet = Pubkey → Bool

abbrev pub nobody : AgentSet
nobody key = false

abbrev pub insert : Pubkey → AgentSet → AgentSet
insert k s j = if k == j then true else s j

abbrev pub delete : Pubkey → AgentSet → AgentSet
delete k s j = if k == j then false else s j

-- Each agent of the set stands in the list once, and no other does.
abbrev pub IsSetOf : List Pubkey → AgentSet → Type 0
IsSetOf xs s = (j : Pubkey) → count j xs ≡ (if s j then 1 else 0)

pub insert-IsSetOf :
    (xs : List Pubkey) (k : Pubkey) (s : AgentSet)
    → IsSetOf xs s
    → IsSetOf (if contains xs k then xs else xs ++ k ∷ []) (insert k s)
insert-IsSetOf xs k s of j = elim (Bool-cases (contains xs k)) [
  | inl here ↦ rw here (ground (arith, contains-count k xs here, of j, of k))
  | inr new ↦ rw new (ground (arith, count-append j k xs, count-contains k xs new, of j, of k))
]

pub delete-IsSetOf :
    (xs : List Pubkey) (k : Pubkey) (i : ℕ) (s : AgentSet)
    → position xs k ≡ some i
    → IsSetOf xs s
    → IsSetOf (swap_remove xs i) (delete k s)
delete-IsSetOf xs k i s at of j = ground (arith, count-swap_remove j k xs i at, of j)

-- A list without the key, where `position` finds none.
pub absent-IsSetOf :
    (xs : List Pubkey) (k : Pubkey) (s : AgentSet)
    → position xs k ≡ none
    → IsSetOf xs s
    → IsSetOf xs (delete k s)
absent-IsSetOf xs k s at of j = ground (arith, position-none k xs at, of j, of k)

-- The new list of each run, in the terms of the set's operations.
pub inserted :
    (xs ys : List Pubkey) (k : Pubkey) (s : AgentSet)
    → (length xs + 1 ≤ 100) × (ys ≡ (if contains xs k then xs else xs ++ k ∷ []))
    → IsSetOf xs s
    → IsSetOf ys (insert k s) × (length ys ≤ 100)
inserted xs ys k s (room, e) of = rw e (insert-IsSetOf xs k s of, inserted_room)
  where
    inserted_room : length (if contains xs k then xs else xs ++ k ∷ []) ≤ 100
    inserted_room = ground (arith, length-append xs (k ∷ []))

pub deleted :
    (xs ys : List Pubkey) (k : Pubkey) (s : AgentSet)
    → (i : ℕ) × (position xs k ≡ some i) × (ys ≡ swap_remove xs i)
    → IsSetOf xs s
    → IsSetOf ys (delete k s) × (length ys ≤ length xs)
deleted xs ys k s (i, at, e) of =
    rw e (delete-IsSetOf xs k i s at of, omega (arith, length-swap_remove k xs i at))

-- A kind of index: its accounts, the runs of its handlers, and what they do to the set.
pub record Kind : Type 1 where
  pub Account : Type 0
  pub members : Account → List Pubkey
  pub Created : Account → AgentSet → Type 0
  pub Added : Account → Pubkey → Account → Type 0
  pub Removed : Account → Pubkey → Account → Type 0
  pub created_lem :
      (a : Account) (s : AgentSet)
      → Created a s
      → IsSetOf (members a) s × (length (members a) ≤ 100)
  pub added_lem :
      (a b : Account) (k : Pubkey) (s : AgentSet)
      → Added a k b
      → IsSetOf (members a) s
      → IsSetOf (members b) (insert k s) × (length (members b) ≤ 100)
  pub removed_lem :
      (a b : Account) (k : Pubkey) (s : AgentSet)
      → Removed a k b
      → IsSetOf (members a) s
      → IsSetOf (members b) (delete k s) × (length (members b) ≤ length (members a))

module _ (kind : Kind) where
  -- The account of an index over its life, and the set that its runs describe.
  pub data Reach : kind.Account → AgentSet → Type 0 where
    created : (a : kind.Account) (s : AgentSet) → kind.Created a s → Reach a s
    added :
        (a b : kind.Account) (k : Pubkey) (s : AgentSet)
        → Reach a s
        → kind.Added a k b
        → Reach b (insert k s)
    removed :
        (a b : kind.Account) (k : Pubkey) (s : AgentSet)
        → Reach a s
        → kind.Removed a k b
        → Reach b (delete k s)

  pub Reach-IsSetOf :
      (a : kind.Account) (s : AgentSet)
      → Reach a s
      → IsSetOf (kind.members a) s × (length (kind.members a) ≤ 100)
  Reach-IsSetOf a s (created a₀ s₀ c) = kind.created_lem a₀ s₀ c
  Reach-IsSetOf a s (added a₀ b k s₀ r x) = kind.added_lem a₀ b k s₀ x (Reach-IsSetOf a₀ s₀ r).0
  Reach-IsSetOf a s (removed a₀ b k s₀ r x) =
      let (of, bounded) = Reach-IsSetOf a₀ s₀ r in
      let (of', shorter) = kind.removed_lem a₀ b k s₀ x of in (of', omega arith)
