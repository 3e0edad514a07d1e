-- ===== src/Receipt/Search.antt =====
-- What the search for a signature has found when it succeeds. That the program of signatures has
-- verified each of the signatures that its instructions list is Solana's.
use synapse_sap.Common.{
  ℕ, zero, suc, ◌+◌, ◌*◌, ◌≤◌, ◌<◌, ◌≡◌, ap, ◌∙◌, true, slice, bytes_eq→eq, length, Bool-cases,
  Option-cases, get_elem?, ◌==◌, inl, inr, arith,
}
use synapse_sap.Errors.{ok, >>=-eq-ok, Result-cases}
use synapse_sap.State.{Pubkey, Bytes}
use synapse_sap.Runtime.{Instruction}
use synapse_sap.Seeds.{key_bytes}
use synapse_sap.Receipt.Signature.{
  Introspection, SignatureOffsets, read_offsets, in_this_instruction, signature_matches,
  any_signature, ed25519_instruction_contains, any_instruction,
  has_verified_ed25519_signature_before,
}

-- The instruction's bytes list, at its entry `k`, a signature of the message under the key, all of it
-- in the instruction itself.
pub record Lists (bytes signer message : Bytes) (k : ℕ) : Type 0 where
  pub offsets : SignatureOffsets
  pub read : read_offsets bytes (2 + k * 14) ≡ ok offsets
  pub own : in_this_instruction offsets ≡ true
  pub within : offsets.signature_offset + 64 ≤ length bytes
  pub key : slice bytes offsets.public_key_offset 32 ≡ signer
  pub text : slice bytes offsets.message_offset offsets.message_size ≡ message

signature_matches-Lists :
    (bytes signer message : Bytes) (k : ℕ) (o : SignatureOffsets)
    → read_offsets bytes (2 + k * 14) ≡ ok o
    → in_this_instruction o ≡ true
    → signature_matches bytes o signer message ≡ ok true
    → Lists bytes signer message k
unfolding signature_matches
signature_matches-Lists bytes signer message k o read own h = record {
  offsets = o;
  read = read;
  own = own;
  within = ground arith;
  key = bytes_eq→eq (slice bytes o.public_key_offset 32) signer (ground arith);
  text = bytes_eq→eq (slice bytes o.message_offset o.message_size) message (ground arith);
}

any_signature-Lists :
    (rounds i : ℕ) (bytes signer message : Bytes)
    → any_signature rounds i bytes signer message ≡ ok true
    → (k : ℕ) × (k < i + rounds) × Lists bytes signer message k
unfolding any_signature
any_signature-Lists zero i bytes signer message h = ground arith
any_signature-Lists (suc rounds) i bytes signer message h =
    let (o, read, h₁) = >>=-eq-ok (read_offsets bytes (2 + i * 14)) _ h in
    elim (Bool-cases (in_this_instruction o)) [
      | inl own ↦ elim (Result-cases (signature_matches bytes o signer message)) [
        | inl (found, m) ↦ elim (Bool-cases found) [
          | inl here ↦ (
            i,
            omega arith,
            signature_matches-Lists bytes signer message i o read own (m ∙ ap (λ b. ok b) here),
          )
          | inr later ↦
              let rest : any_signature rounds (i + 1) bytes signer message ≡ ok true =
                ground arith in
              let (k, lt, l) = any_signature-Lists rounds (i + 1) bytes signer message rest in
              (k, omega (arith, lt), l)
        ]
        | inr (e, failed) ↦ ground arith
      ]
      | inr other ↦
          let rest : any_signature rounds (i + 1) bytes signer message ≡ ok true = ground arith in
          let (k, lt, l) = any_signature-Lists rounds (i + 1) bytes signer message rest in
          (k, omega (arith, lt), l)
    ]

-- One of the instructions before `current_ix` is of the program of signatures and lists the signature.
pub record IsVerified (tx : Introspection) (current_ix : ℕ) (signer message : Bytes) : Type 0 where
  pub place : ℕ
  pub ix : Instruction
  pub entry : ℕ
  pub before : place < current_ix
  pub loaded : tx.load_instruction_at place ≡ ok ix
  pub program : ix.program_id ≡ tx.ed25519_id
  pub lists : Lists ix.data_bytes signer message entry

ed25519_instruction_contains-Lists :
    (id : Pubkey) (ix : Instruction) (signer message : Bytes)
    → ed25519_instruction_contains id ix signer message ≡ ok true
    → (ix.program_id ≡ id) × ((k : ℕ) × Lists ix.data_bytes signer message k)
unfolding ed25519_instruction_contains
ed25519_instruction_contains-Lists id ix signer message h =
    elim (Bool-cases (ix.program_id == id)) [
      | inl program ↦ elim (Option-cases (get_elem? ix.data_bytes 0)) [
        | inl empty ↦ ground arith
        | inr (n, at) ↦
            let listed : any_signature n 0 ix.data_bytes signer message ≡ ok true = ground arith in
            let (k, lt, l) = any_signature-Lists n 0 ix.data_bytes signer message listed in
            (ground arith, (k, l))
      ]
      | inr other ↦ ground arith
    ]

any_instruction-IsVerified :
    (tx : Introspection) (limit rounds i : ℕ) (signer message : Bytes)
    → i + rounds ≡ limit
    → any_instruction tx rounds i signer message ≡ ok true
    → IsVerified tx limit signer message
unfolding any_instruction
any_instruction-IsVerified tx limit zero i signer message all h = ground arith
any_instruction-IsVerified tx limit (suc rounds) i signer message all h =
    let (ix, loaded, h₁) = >>=-eq-ok (tx.load_instruction_at i) _ h in
    let (found, m, h₂) =
      >>=-eq-ok (ed25519_instruction_contains tx.ed25519_id ix signer message) _ h₁ in
    elim (Bool-cases found) [
      | inl here ↦
          let (program, (k, l)) =
            ed25519_instruction_contains-Lists tx.ed25519_id ix signer message
              (m ∙ ap (λ b. ok b) here) in
          record {
            place = i;
            ix = ix;
            entry = k;
            before = omega arith;
            loaded = loaded;
            program = program;
            lists = l;
          }
      | inr later ↦
          let rest : any_instruction tx rounds (i + 1) signer message ≡ ok true = ground arith in
          let v =
            any_instruction-IsVerified tx limit rounds (i + 1) signer message (omega arith) rest in
          record {
            place = v.place;
            ix = v.ix;
            entry = v.entry;
            before = v.before;
            loaded = v.loaded;
            program = v.program;
            lists = v.lists;
          }
    ]

-- A search that succeeds has found an instruction before the one that runs, of the program of
-- signatures, that lists a signature of just this message under just this key, whose parts all stand
-- in that instruction.
pub has_verified_ed25519_signature_before-IsVerified :
    (tx : Introspection) (current_ix : ℕ) (signer : Pubkey) (message : Bytes)
    → has_verified_ed25519_signature_before tx current_ix signer message ≡ ok true
    → IsVerified tx current_ix (key_bytes signer) message
unfolding has_verified_ed25519_signature_before
has_verified_ed25519_signature_before-IsVerified tx current_ix signer message h =
    any_instruction-IsVerified tx current_ix current_ix 0 (key_bytes signer) message (omega arith) h
