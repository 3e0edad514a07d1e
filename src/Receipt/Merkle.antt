-- ===== src/Receipt/Merkle.antt =====
-- instructions/receipt.rs: `verify_merkle_proof`. The hash of a pair is a parameter.
use synapse_sap.Common.{Bool, List, [], ◌∷◌, leb, ◌==◌, if◌then◌else◌}
use synapse_sap.State.{Hash}

module _ (hash_pair : Hash → Hash → Hash) where
  -- One round: the pair is hashed with the smaller hash first.
  abbrev pub combine : Hash → Hash → Hash
  combine hash sibling = if leb hash sibling then hash_pair hash sibling else hash_pair sibling hash

  unfoldable pub fold_proof : Hash → List Hash → Hash
  fold_proof hash [] = hash
  fold_proof hash (sibling ∷ proof) = fold_proof (combine hash sibling) proof

  unfoldable pub verify_merkle_proof : Hash → List Hash → Hash → Bool
  unfolding fold_proof
  verify_merkle_proof leaf proof root = fold_proof leaf proof == root
