-- ===== src/Tests/Proof.antt =====
-- A submission of one receipt of a batch of two, signed by the depositor and by the agent.
use synapse_sap.Common.{◌≡◌, refl, true, false, ◌==◌, if◌then◌else◌, [], ◌∷◌, ◌++◌, le_bytes, arith}
use synapse_sap.Common.Int.{pos}
use synapse_sap.Errors.{ok}
use synapse_sap.State.{Pubkey, Bytes, ReceiptBatch, PendingSettlement, DisputeRecord}
use synapse_sap.State.{DisputeType, DisputeOutcome, ResolutionLayer}
use synapse_sap.Runtime.{Instruction}
use synapse_sap.Seeds.{receipt_seeds, dispute_seeds, key_bytes}
use synapse_sap.Receipt.Merkle.{verify_merkle_proof}
use synapse_sap.Receipt.Tree.{Tree, leaf, node, at_leaf, to_left, verify_merkle_proof-accepts}
use synapse_sap.Receipt.Signature.{Introspection, build_receipt_signature_message}
use synapse_sap.Receipt.Message.{Subject, IsSubject, build_receipt_signature_message-injective}
use synapse_sap.Receipt.Submit.{SubmitAccounts}
use synapse_sap.Tests.Demo
use synapse_sap.Tests.Escrow

abbrev tree : Tree
tree = node (leaf 5) (leaf 7)

verify_merkle_proof-accepts_example :
    verify_merkle_proof Demo.runtime.hash_pair 5 (7 ∷ []) 22 ≡ true
verify_merkle_proof-accepts_example =
    verify_merkle_proof-accepts Demo.runtime.hash_pair tree 5 (7 ∷ [])
      (to_left (leaf 5) (leaf 7) 5 [] (at_leaf 5))

abbrev dispute_key : Pubkey
dispute_key = Demo.derive (dispute_seeds Demo.pending_key)

abbrev batch : ReceiptBatch
batch = record {
  bump = 255;
  escrow = Demo.escrow_key;
  batch_index = 0;
  merkle_root = 22;
  call_count = 2;
  period_start = pos 0;
  period_end = pos 1;
  inscribed_at = pos 1000;
}

abbrev pending : PendingSettlement
pending = record (Escrow.pending) { is_disputed = true }

abbrev dispute : DisputeRecord
dispute = record {
  bump = 255;
  pending_settlement = Demo.pending_key;
  escrow = Demo.escrow_key;
  depositor = Demo.depositor;
  agent = Demo.agent_key;
  dispute_type = DisputeType.overcharge;
  evidence_hash = 5;
  agent_evidence_hash = 0;
  outcome = DisputeOutcome.pending;
  resolution_layer = ResolutionLayer.pending;
  created_at = pos 1000;
  resolved_at = pos 0;
  resolution_hash = 0;
  slash_amount = 0;
  dispute_bond = 0;
  proven_calls = 0;
  claimed_calls = 20;
  proof_deadline = pos 9000;
}

abbrev accounts : SubmitAccounts
accounts = record {
  wallet = Demo.wallet;
  agent_key = Demo.agent_key;
  escrow_key = Demo.escrow_key;
  escrow = Escrow.escrow;
  receipt_batch_key = Demo.derive (receipt_seeds Demo.escrow_key 0);
  receipt_batch = batch;
  pending_key = Demo.pending_key;
  pending_settlement = pending;
  dispute_key = dispute_key;
  dispute = dispute;
  remaining = record { key = 3; is_signer = false; is_writable = false } ∷ [];
}

abbrev message : Bytes
message =
    build_receipt_signature_message Demo.runtime.program_id Demo.escrow_key Demo.pending_key
      dispute_key 5

-- One signature: its offsets, the key at 16, the signature at 48, the message at 112.
abbrev signed_by : Pubkey → Instruction
signed_by signer = record {
  program_id = 4;
  accounts = [];
  data_bytes =
      1
      ∷ 0
      ∷ 48
      ∷ 0
      ∷ 255
      ∷ 255
      ∷ 16
      ∷ 0
      ∷ 255
      ∷ 255
      ∷ 112
      ∷ 0
      ∷ 174
      ∷ 0
      ∷ 255
      ∷ 255
      ∷ (key_bytes signer ++ (le_bytes 64 0 ++ message));
}

abbrev tx : Introspection
tx = record {
  sysvar_id = 3;
  ed25519_id = 4;
  load_current_index = ok 2;
  load_instruction_at =
      λ i. if i == 0 then ok (signed_by Demo.depositor) else ok (signed_by Demo.wallet);
}

abbrev proven : DisputeRecord
proven = record dispute { proven_calls = 1 }

abbrev subject : Subject
subject = record {
  program_id = 1;
  escrow = 2;
  pending_settlement = 3;
  dispute = 4;
  receipt_hash = 5;
}

subject-IsSubject : IsSubject subject
subject-IsSubject = record {
  program_fits = omega arith;
  escrow_fits = omega arith;
  pending_fits = omega arith;
  dispute_fits = omega arith;
  receipt_fits = omega arith;
}

build_receipt_signature_message-injective_example : subject ≡ subject
build_receipt_signature_message-injective_example =
    build_receipt_signature_message-injective subject subject subject-IsSubject subject-IsSubject
      refl
