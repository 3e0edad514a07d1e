-- ===== src/Receipt/Submit.antt =====
-- instructions/receipt.rs: `inscribe_receipt_batch` and `submit_receipt_proof`.
use synapse_sap.Common.{
  ℕ, Bool, true, false, List, [], ◌∷◌, ltb, leb, ◌==◌, if◌then◌else◌, length, min,
}
use synapse_sap.Common.Int.{ℤ, leb_ℤ}
use synapse_sap.Errors.{
  Result, ok, err, panicked, require, constraint, ◌>>=◌, ◌>>◌, constraint_seeds, constraint_raw,
  invalid_batch_index, batch_empty, invalid_period, proof_deadline_expired, invalid_receipt_proof,
  max_receipt_proof_exceeded, receipt_proof_already_submitted, duplicate_receipt_proof,
  max_merkle_depth_exceeded, missing_receipt_signature, settlement_not_pending,
  settlement_already_finalized,
}
use synapse_sap.Checked.{checked_add_u32}
use synapse_sap.State.{
  Pubkey, Hash, EscrowAccountV2, ReceiptBatch, PendingSettlement, DisputeRecord, max_receipt_proofs,
  max_merkle_depth,
}
use synapse_sap.Runtime.{Runtime, Bank, AccountInfo, Clock}
use synapse_sap.Seeds.{
  agent_seeds, escrow_seeds, receipt_seeds, pending_seeds, dispute_seeds, at_address, at_bump,
}
use synapse_sap.Escrow.Finalize.{outcome_is_pending}
use synapse_sap.Receipt.Merkle.{verify_merkle_proof}
use synapse_sap.Receipt.Signature.{
  Introspection, build_receipt_signature_message, has_verified_ed25519_signature_before,
  find_instructions_sysvar,
}

pub record InscribeAccounts : Type 0 where
  pub wallet : Pubkey
  pub agent_key : Pubkey
  pub escrow_key : Pubkey
  pub escrow : EscrowAccountV2
  pub receipt_batch_key : Pubkey

pub record InscribeArgs : Type 0 where
  pub batch_index : ℕ
  pub merkle_root : Hash
  pub call_count : ℕ
  pub period_start : ℤ
  pub period_end : ℤ

unfoldable pub inscribe_receipt_batch :
    Runtime
    → InscribeAccounts
    → InscribeArgs
    → Clock
    → Bank
    → Result (EscrowAccountV2 × ReceiptBatch × Bank)
inscribe_receipt_batch rt accounts args clock bank = do
  let e = accounts.escrow
  let seeds = receipt_seeds accounts.escrow_key args.batch_index
  constraint (at_address rt (agent_seeds accounts.wallet) accounts.agent_key) constraint_seeds
  constraint
      (at_bump rt (escrow_seeds accounts.agent_key e.depositor e.escrow_nonce) e.bump
        accounts.escrow_key)
      constraint_seeds
  constraint (e.agent == accounts.agent_key) constraint_raw
  constraint (at_address rt seeds accounts.receipt_batch_key) constraint_seeds
  bank₁ ← rt.init accounts.wallet accounts.receipt_batch_key bank
  require (args.batch_index == e.receipt_batch_count) invalid_batch_index
  require (ltb 0 args.call_count) batch_empty
  require (leb_ℤ args.period_start args.period_end) invalid_period
  count ← checked_add_u32 e.receipt_batch_count 1
  ok (
    record e { receipt_batch_count = count },
    record {
      bump = (rt.find_program_address seeds).1;
      escrow = accounts.escrow_key;
      batch_index = args.batch_index;
      merkle_root = args.merkle_root;
      call_count = args.call_count;
      period_start = args.period_start;
      period_end = args.period_end;
      inscribed_at = clock.unix_timestamp;
    },
    bank₁,
  )

pub record SubmitAccounts : Type 0 where
  pub wallet : Pubkey
  pub agent_key : Pubkey
  pub escrow_key : Pubkey
  pub escrow : EscrowAccountV2
  pub receipt_batch_key : Pubkey
  pub receipt_batch : ReceiptBatch
  pub pending_key : Pubkey
  pub pending_settlement : PendingSettlement
  pub dispute_key : Pubkey
  pub dispute : DisputeRecord
  pub remaining : List AccountInfo

-- `receipt_hash` differs from every hash in the list.
unfoldable pub is_fresh : Hash → List Hash → Bool
is_fresh receipt_hash [] = true
is_fresh receipt_hash (prior ∷ seen) =
    if prior == receipt_hash then false else is_fresh receipt_hash seen

module _ (rt : Runtime) (tx : Introspection) where
  unfoldable pub submit_constraints : SubmitAccounts → Result (Unit {0})
  submit_constraints accounts = do
    let e = accounts.escrow
    let ps = accounts.pending_settlement
    constraint (at_address rt (agent_seeds accounts.wallet) accounts.agent_key) constraint_seeds
    constraint
        (at_bump rt (escrow_seeds accounts.agent_key e.depositor e.escrow_nonce) e.bump
          accounts.escrow_key)
        constraint_seeds
    constraint
        (at_bump rt (receipt_seeds accounts.escrow_key accounts.receipt_batch.batch_index)
          accounts.receipt_batch.bump accounts.receipt_batch_key)
        constraint_seeds
    constraint (accounts.receipt_batch.escrow == accounts.escrow_key) constraint_raw
    constraint
        (at_bump rt (pending_seeds accounts.escrow_key ps.settlement_index) ps.bump
          accounts.pending_key)
        constraint_seeds
    constraint (ps.escrow == accounts.escrow_key) constraint_raw
    require ps.is_disputed settlement_not_pending
    constraint
        (at_bump rt (dispute_seeds accounts.pending_key) accounts.dispute.bump accounts.dispute_key)
        constraint_seeds
    constraint (accounts.dispute.agent == accounts.agent_key) constraint_raw
    require (outcome_is_pending accounts.dispute.outcome) settlement_already_finalized

  -- One round of the loop over the receipts, after those in `seen`.
  unfoldable pub check_receipt :
      SubmitAccounts → ℕ → List Hash → Hash → List Hash → Result (Unit {0})
  check_receipt accounts current_ix seen receipt_hash proof = do
    require (is_fresh receipt_hash seen) duplicate_receipt_proof
    require (leb (length proof) max_merkle_depth) max_merkle_depth_exceeded
    require (verify_merkle_proof rt.hash_pair receipt_hash proof accounts.receipt_batch.merkle_root)
        invalid_receipt_proof
    let message =
        build_receipt_signature_message rt.program_id accounts.escrow_key accounts.pending_key
          accounts.dispute_key receipt_hash
    by_depositor ←
        has_verified_ed25519_signature_before tx current_ix accounts.escrow.depositor message
    require by_depositor missing_receipt_signature
    by_agent ←
        has_verified_ed25519_signature_before tx current_ix accounts.escrow.agent_wallet message
    require by_agent missing_receipt_signature

  -- The loop; the list of proofs has been checked to be as long as that of the hashes.
  unfoldable pub verify_receipts :
      SubmitAccounts → ℕ → List Hash → List Hash → List (List Hash) → ℕ → Result ℕ
  verify_receipts accounts current_ix seen [] proofs verified_count = ok verified_count
  verify_receipts accounts current_ix seen (h ∷ hashes) [] verified_count = err panicked
  verify_receipts accounts current_ix seen (h ∷ hashes) (proof ∷ proofs) verified_count = do
    check_receipt accounts current_ix seen h proof
    count ← checked_add_u32 verified_count 1
    verify_receipts accounts current_ix (h ∷ seen) hashes proofs count

  unfoldable pub submit_receipt_proof :
      SubmitAccounts → List Hash → List (List Hash) → Clock → Result DisputeRecord
  unfolding submit_constraints
  submit_receipt_proof accounts receipt_hashes merkle_proofs clock = do
    submit_constraints accounts
    require (leb_ℤ clock.unix_timestamp accounts.dispute.proof_deadline) proof_deadline_expired
    require (length receipt_hashes == length merkle_proofs) invalid_receipt_proof
    require (ltb 0 (length receipt_hashes)) invalid_receipt_proof
    require (leb (length receipt_hashes) max_receipt_proofs) max_receipt_proof_exceeded
    require (accounts.dispute.proven_calls == 0) receipt_proof_already_submitted
    sysvar ← find_instructions_sysvar tx accounts.remaining
    current_ix ← tx.load_current_index
    verified_count ← verify_receipts accounts current_ix [] receipt_hashes merkle_proofs 0
    ok (record (accounts.dispute) {
      proven_calls = min verified_count accounts.dispute.claimed_calls;
    })
