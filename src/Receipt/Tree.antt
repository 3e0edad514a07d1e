-- ===== src/Receipt/Tree.antt =====
-- What a Merkle proof shows: trees whose nodes are hashed as the proofs are checked, the proof of
-- each leaf, and what an accepted proof says of a tree with the accepted root.
use synapse_sap.Common.{
  ◌≡◌, ◌≢◌, ◌⊎◌, inl, inr, refl, sym, ap, ◌∙◌, true, List, [], ◌∷◌, ◌++◌, leb, ◌==◌, min, max,
  Bool-cases, arith,
}
use synapse_sap.State.{Hash}
use synapse_sap.Receipt.Merkle.{combine, fold_proof, verify_merkle_proof}

pub data Tree : Type 0 where
  leaf : Hash → Tree
  node : Tree → Tree → Tree

-- The second tree is a part of the first.
pub data Part : Tree → Tree → Type 0 where
  whole : (t : Tree) → Part t t
  in_left : (l r u : Tree) → Part l u → Part (node l r) u
  in_right : (l r u : Tree) → Part r u → Part (node l r) u

pub Part-left : (t l r : Tree) → Part t (node l r) → Part t l
Part-left t l r (whole u) = in_left l r l (whole l)
Part-left t l r (in_left a b u p) = in_left a b l (Part-left a l r p)
Part-left t l r (in_right a b u p) = in_right a b l (Part-left b l r p)

pub Part-right : (t l r : Tree) → Part t (node l r) → Part t r
Part-right t l r (whole u) = in_right l r r (whole r)
Part-right t l r (in_left a b u p) = in_left a b r (Part-right a l r p)
Part-right t l r (in_right a b u p) = in_right a b r (Part-right b l r p)

-- One of two hashes is one of the other two, if their smaller and their larger agree.
same_pair : (p q h s : Hash) → min p q ≡ min h s → max p q ≡ max h s → (p ≡ h) ⊎ (q ≡ h)
same_pair p q h s lo hi = elim (Bool-cases (p == h)) [
  | inl same ↦ inl (ground arith)
  | inr other ↦ inr (ground arith)
]

module _ (hash_pair : Hash → Hash → Hash) where
  abbrev pub tree_root : Tree → Hash
  tree_root (leaf h) = h
  tree_root (node l r) = combine hash_pair (tree_root l) (tree_root r)

  -- The hash stands at a leaf, and the list is the siblings on the way from it to the root.
  pub data LeafProof : Tree → Hash → List Hash → Type 0 where
    at_leaf : (h : Hash) → LeafProof (leaf h) h []
    to_left :
        (l r : Tree) (h : Hash) (proof : List Hash)
        → LeafProof l h proof
        → LeafProof (node l r) h (proof ++ tree_root r ∷ [])
    to_right :
        (l r : Tree) (h : Hash) (proof : List Hash)
        → LeafProof r h proof
        → LeafProof (node l r) h (proof ++ tree_root l ∷ [])

  combine_lem : (a b : Hash) → combine hash_pair a b ≡ hash_pair (min a b) (max a b)
  combine_lem a b = elim (Bool-cases (leb a b)) [
    | inl le ↦
        let lo : min a b ≡ a = ground arith in
        let hi : max a b ≡ b = ground arith in rw le (cc (lo, hi))
    | inr gt ↦
        let lo : min a b ≡ b = ground arith in
        let hi : max a b ≡ a = ground arith in rw gt (cc (lo, hi))
  ]

  combine_comm : (a b : Hash) → combine hash_pair a b ≡ combine hash_pair b a
  combine_comm a b =
      combine_lem a b
      ∙ ap (λ m. hash_pair m (max a b)) (omega arith)
      ∙ ap (λ m. hash_pair (min b a) m) (omega arith)
      ∙ sym (combine_lem b a)

  fold_proof-append :
      (h s : Hash) (proof : List Hash)
      → fold_proof hash_pair h (proof ++ s ∷ [])
        ≡ combine hash_pair (fold_proof hash_pair h proof) s
  unfolding fold_proof
  fold_proof-append h s [] = refl
  fold_proof-append h s (x ∷ proof) = fold_proof-append (combine hash_pair h x) s proof

  LeafProof-fold :
      (t : Tree) (h : Hash) (proof : List Hash)
      → LeafProof t h proof
      → fold_proof hash_pair h proof ≡ tree_root t
  unfolding fold_proof
  LeafProof-fold t h proof (at_leaf x) = refl
  LeafProof-fold t h proof (to_left l r x p i) =
      fold_proof-append x (tree_root r) p
      ∙ ap (λ m. combine hash_pair m (tree_root r)) (LeafProof-fold l x p i)
  LeafProof-fold t h proof (to_right l r x p i) =
      fold_proof-append x (tree_root l) p
      ∙ ap (λ m. combine hash_pair m (tree_root l)) (LeafProof-fold r x p i)
      ∙ combine_comm (tree_root r) (tree_root l)

  -- The siblings on the way from a leaf of a tree to its root are a proof of the leaf that is accepted
  -- against the root.
  pub verify_merkle_proof-accepts :
      (t : Tree) (h : Hash) (proof : List Hash)
      → LeafProof t h proof
      → verify_merkle_proof hash_pair h proof (tree_root t) ≡ true
  unfolding verify_merkle_proof
  verify_merkle_proof-accepts t h proof p = ground (arith, LeafProof-fold t h proof p)

  -- Where a hash comes from that has an accepted proof.
  pub data Traced (t : Tree) (h : Hash) : Type 0 where
    found : (u : Tree) → Part t u → tree_root u ≡ h → Traced t h
    leaf_is_pair : (a b x : Hash) → Part t (leaf x) → x ≡ hash_pair a b → Traced t h
    collision : (a b c d : Hash) → hash_pair a b ≡ hash_pair c d → (a ≢ c) ⊎ (b ≢ d) → Traced t h

  -- Pairs with the same hash have a part in common with each other, or collide.
  shared_pair :
      (t l r : Tree) (h s : Hash)
      → Part t (node l r)
      → hash_pair (min (tree_root l) (tree_root r)) (max (tree_root l) (tree_root r))
        ≡ hash_pair (min h s) (max h s)
      → Traced t h
  shared_pair t l r h s p same =
      let a = tree_root l in
      let b = tree_root r in
      elim (Bool-cases (min a b == min h s)) [
        | inl lo ↦ elim (Bool-cases (max a b == max h s)) [
          | inl hi ↦ elim (same_pair a b h s (ground arith) (ground arith)) [
            | inl is_left ↦ found l (Part-left t l r p) is_left
            | inr is_right ↦ found r (Part-right t l r p) is_right
          ]
          | inr hi ↦
              collision (min a b) (max a b) (min h s) (max h s) same (inr (λ q. ground arith))
        ]
        | inr lo ↦ collision (min a b) (max a b) (min h s) (max h s) same (inl (λ q. ground arith))
      ]

  -- One round back: a part of the tree has the root to which the round came.
  below-Traced :
      (t u : Tree) (h s : Hash) → Part t u → tree_root u ≡ combine hash_pair h s → Traced t h
  below-Traced t (leaf x) h s p e = leaf_is_pair (min h s) (max h s) x p (e ∙ combine_lem h s)
  below-Traced t (node l r) h s p e =
      shared_pair t l r h s p (sym (combine_lem (tree_root l) (tree_root r)) ∙ e ∙ combine_lem h s)

  fold_proof-Traced :
      (t : Tree) (h : Hash) (proof : List Hash)
      → fold_proof hash_pair h proof ≡ tree_root t
      → Traced t h
  unfolding fold_proof
  fold_proof-Traced t h [] e = found t (whole t) (sym e)
  fold_proof-Traced t h (s ∷ proof) e = elim (fold_proof-Traced t (combine hash_pair h s) proof e) [
    | found u p at ↦ below-Traced t u h s p at
    | leaf_is_pair a b x p at ↦ leaf_is_pair a b x p at
    | collision a b c d same differ ↦ collision a b c d same differ
  ]

  -- A hash whose proof is accepted against the root of a tree is the root of a part of the tree,
  -- unless a leaf of the tree is the hash of a pair, or two pairs have the same hash.
  pub verify_merkle_proof-Traced :
      (t : Tree) (h : Hash) (proof : List Hash)
      → verify_merkle_proof hash_pair h proof (tree_root t) ≡ true
      → Traced t h
  unfolding verify_merkle_proof
  verify_merkle_proof-Traced t h proof ok_proof = fold_proof-Traced t h proof (ground arith)
