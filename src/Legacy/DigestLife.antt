-- ===== src/Legacy/DigestLife.antt =====
-- A digest over its life: the rolling proof of all that was posted and inscribed.
use synapse_sap.Common.{ℕ, ◌+◌, ◌≤◌, ◌≡◌, Option, none, some, List, [], ◌∷◌, length, arith}
use synapse_sap.Errors.{Result, ok, err}
use synapse_sap.State.{Hash, Bytes, MemoryDigest}
use synapse_sap.Runtime.{Runtime, Bank, Clock}
use synapse_sap.Legacy.Digest.{
  DigestAccounts, init_digest, post_digest, inscribe_to_digest, update_digest_storage,
}

-- One entry, with the size that its poster tells of it.
pub record Entry : Type 0 where
  pub content_hash : Hash
  pub size : ℕ

abbrev pub proof_root : Runtime → List Entry → Hash
proof_root rt [] = 0
proof_root rt (x ∷ older) = rt.hash_pair (proof_root rt older) x.content_hash

abbrev pub proof_size : List Entry → ℕ
proof_size [] = 0
proof_size (x ∷ older) = x.size + proof_size older

abbrev pub newest : List Entry → Hash
newest [] = 0
newest (x ∷ older) = x.content_hash

-- What a handler leaves, if it succeeds.
abbrev pub value {ℓ} : {A : Type ℓ} → Result A → Option A
value (ok a) = some a
value (err e) = none

module _ (rt : Runtime) where
  pub data Reach : MemoryDigest → List Entry → Type 0 where
    created :
        (a : DigestAccounts) (clock : Clock) (bank bank' : Bank) (d : MemoryDigest)
        → init_digest rt a clock bank ≡ ok (d, bank')
        → Reach d []
    posted :
        (a : DigestAccounts) (es : List Entry) (hash : Hash) (size : ℕ) (clock : Clock)
        (d : MemoryDigest)
        → Reach a.digest es
        → post_digest rt a hash size clock ≡ ok d
        → Reach d (record { content_hash = hash; size = size } ∷ es)
    inscribed :
        (a : DigestAccounts) (es : List Entry) (content : Bytes) (hash : Hash) (clock : Clock)
        (d : MemoryDigest)
        → Reach a.digest es
        → inscribe_to_digest rt a content hash clock ≡ ok d
        → Reach d (record { content_hash = hash; size = length content } ∷ es)
    pointed :
        (a : DigestAccounts) (es : List Entry) (storage : Hash) (storage_type : ℕ) (clock : Clock)
        (d : MemoryDigest)
        → Reach a.digest es
        → update_digest_storage rt a storage storage_type clock ≡ ok d
        → Reach d es

  pub record IsProof (d : MemoryDigest) (es : List Entry) : Type 0 where
    pub hashed : d.merkle_root ≡ proof_root rt es
    pub counted : d.num_entries ≡ length es
    pub sized : d.total_data_size ≡ proof_size es
    pub latest : d.latest_hash ≡ newest es

  -- On content of 1 to 750 bytes, whatever the accounts, posting its hash and size and inscribing it
  -- leave the same digest, or both fail.
  pub post_digest-inscribe :
      (a : DigestAccounts) (content : Bytes) (hash : Hash) (clock : Clock)
      → 1 ≤ length content
      → length content ≤ 750
      → value (post_digest rt a hash (length content) clock)
        ≡ value (inscribe_to_digest rt a content hash clock)
  unfolding inscribe_to_digest post_digest
  post_digest-inscribe a content hash clock some_content short = ground arith

  posted-IsProof :
      (a : DigestAccounts) (es : List Entry) (hash : Hash) (size : ℕ) (clock : Clock)
      (d : MemoryDigest)
      → post_digest rt a hash size clock ≡ ok d
      → IsProof a.digest es
      → IsProof d (record { content_hash = hash; size = size } ∷ es)
  unfolding post_digest
  posted-IsProof a es hash size clock d h i = record {
    hashed = ground (arith, i.hashed);
    counted = ground (arith, i.counted);
    sized = ground (arith, i.sized);
    latest = ground arith;
  }

  inscribed-IsProof :
      (a : DigestAccounts) (es : List Entry) (content : Bytes) (hash : Hash) (clock : Clock)
      (d : MemoryDigest)
      → inscribe_to_digest rt a content hash clock ≡ ok d
      → IsProof a.digest es
      → IsProof d (record { content_hash = hash; size = length content } ∷ es)
  unfolding inscribe_to_digest
  inscribed-IsProof a es content hash clock d h i = record {
    hashed = ground (arith, i.hashed);
    counted = ground (arith, i.counted);
    sized = ground (arith, i.sized);
    latest = ground arith;
  }

  -- In every state that a digest comes to, it is the rolling hash, the number, the total size and the
  -- newest hash of all that was posted and inscribed, whatever storage it is pointed to meanwhile.
  pub Reach-IsProof : (d : MemoryDigest) (es : List Entry) → Reach d es → IsProof d es
  unfolding init_digest update_digest_storage
  Reach-IsProof d es (created a clock bank bank' e h) = record {
    hashed = ground arith;
    counted = ground arith;
    sized = ground arith;
    latest = ground arith;
  }
  Reach-IsProof d es (posted a es₀ hash size clock e r h) =
      posted-IsProof a es₀ hash size clock e h (Reach-IsProof a.digest es₀ r)
  Reach-IsProof d es (inscribed a es₀ content hash clock e r h) =
      inscribed-IsProof a es₀ content hash clock e h (Reach-IsProof a.digest es₀ r)
  Reach-IsProof d es (pointed a es₀ storage kind clock e r h) =
      let i = Reach-IsProof a.digest es₀ r in
      record {
        hashed = ground (arith, i.hashed);
        counted = ground (arith, i.counted);
        sized = ground (arith, i.sized);
        latest = ground (arith, i.latest);
      }
