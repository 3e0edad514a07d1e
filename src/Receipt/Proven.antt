-- ===== src/Receipt/Proven.antt =====
-- What `submit_receipt_proof` has shown when it succeeds.
use synapse_sap.Common.{ℕ, ◌≡◌, true, List, [], ◌∷◌, arith}
use synapse_sap.Errors.{ok}
use synapse_sap.State.{Hash, Bytes}
use synapse_sap.Runtime.{Runtime}
use synapse_sap.Seeds.{key_bytes}
use synapse_sap.Receipt.Tree.{Tree, tree_root, Traced, verify_merkle_proof-Traced}
use synapse_sap.Receipt.Signature.{Introspection, build_receipt_signature_message}
use synapse_sap.Receipt.Search.{IsVerified, has_verified_ed25519_signature_before-IsVerified}
use synapse_sap.Receipt.Submit.{SubmitAccounts, is_fresh, check_receipt}

module _ (rt : Runtime) (tx : Introspection) (accounts : SubmitAccounts) (current_ix : ℕ) where
  abbrev receipt_message : Hash → Bytes
  receipt_message h =
      build_receipt_signature_message rt.program_id accounts.escrow_key accounts.pending_key
        accounts.dispute_key h

  -- Both parties signed the receipt, in instructions before the one that runs.
  pub record IsSigned (h : Hash) : Type 0 where
    pub by_depositor :
        IsVerified tx current_ix (key_bytes accounts.escrow.depositor) (receipt_message h)
    pub by_agent :
        IsVerified tx current_ix (key_bytes accounts.escrow.agent_wallet) (receipt_message h)

  -- Every receipt is signed by both, and traced to the tree.
  abbrev pub AllProven : Tree → List Hash → Type 0
  AllProven t [] = Unit {0}
  AllProven t (h ∷ hs) = Traced rt.hash_pair t h × IsSigned h × AllProven t hs

  pub check_receipt-proven :
      (t : Tree) (seen : List Hash) (h : Hash) (proof : List Hash)
      → tree_root rt.hash_pair t ≡ accounts.receipt_batch.merkle_root
      → check_receipt rt tx accounts current_ix seen h proof ≡ ok tt
      → (is_fresh h seen ≡ true) × Traced rt.hash_pair t h × IsSigned h
  unfolding check_receipt
  check_receipt-proven t seen h proof batch checked = (
    ground arith,
    verify_merkle_proof-Traced rt.hash_pair t h proof (ground (arith, batch)),
    record {
      by_depositor =
          has_verified_ed25519_signature_before-IsVerified tx current_ix accounts.escrow.depositor
            (receipt_message h) (ground arith);
      by_agent =
          has_verified_ed25519_signature_before-IsVerified tx current_ix
            accounts.escrow.agent_wallet (receipt_message h) (ground arith);
    },
  )
