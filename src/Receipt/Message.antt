-- ===== src/Receipt/Message.antt =====
-- The message that both parties sign for a receipt tells of that receipt only.
use synapse_sap.Common.{
  ℕ, zero, suc, ◌+◌, ◌*◌, ◌/◌, ◌%◌, ◌^◌, ◌<◌, ◌≡◌, refl, sym, ap, ◌∙◌, [], ◌∷◌, ◌++◌, length,
  length-append, be_bytes, of_be_bytes, arith,
}
use synapse_sap.State.{Pubkey, Hash, Bytes}
use synapse_sap.Seeds.{key_bytes}
use synapse_sap.Receipt.Signature.{build_receipt_signature_message, receipt_signature_domain}

of_be_bytes-append :
    (acc b : ℕ) (xs : Bytes) → of_be_bytes acc (xs ++ b ∷ []) ≡ of_be_bytes acc xs * 256 + b
of_be_bytes-append acc b [] = refl
of_be_bytes-append acc b (x ∷ xs) = of_be_bytes-append (acc * 256 + x) b xs

length-be_bytes : (n k : ℕ) → length (be_bytes n k) ≡ n
length-be_bytes zero k = refl
length-be_bytes (suc n) k =
    omega (arith, length-append (be_bytes n (k / 256)) (k % 256 ∷ []), length-be_bytes n (k / 256))

-- A number is read back from its bytes.
pub of_be_bytes-be_bytes : (n k : ℕ) → k < 256 ^ n → of_be_bytes 0 (be_bytes n k) ≡ k
of_be_bytes-be_bytes zero k h = omega arith
of_be_bytes-be_bytes (suc n) k h =
    of_be_bytes-append 0 (k % 256) (be_bytes n (k / 256))
    ∙ omega (arith, of_be_bytes-be_bytes n (k / 256) (omega arith))

append-injective :
    (xs ys us vs : Bytes) → length xs ≡ length us → xs ++ ys ≡ us ++ vs → (xs ≡ us) × (ys ≡ vs)
append-injective [] ys [] vs l e = (refl, e)
append-injective [] ys (u ∷ us) vs l e = ground arith
append-injective (x ∷ xs) ys [] vs l e = ground arith
append-injective (x ∷ xs) ys (u ∷ us) vs l e =
    let head : x ≡ u = cc in
    let tail : xs ++ ys ≡ us ++ vs = cc in
    let (same, rest) = append-injective xs ys us vs (omega arith) tail in (cc (head, same), rest)

-- The front key of two equal messages, and what is left of them.
key_bytes-injective :
    (a b : Pubkey) (xs ys : Bytes)
    → a < 2 ^ 256
    → b < 2 ^ 256
    → key_bytes a ++ xs ≡ key_bytes b ++ ys
    → (a ≡ b) × (xs ≡ ys)
key_bytes-injective a b xs ys la lb e =
    let (same, rest) =
      append-injective (key_bytes a) xs (key_bytes b) ys
        (length-be_bytes 32 a ∙ sym (length-be_bytes 32 b)) e in
    (
      sym (of_be_bytes-be_bytes 32 a la) ∙ ap (of_be_bytes 0) same ∙ of_be_bytes-be_bytes 32 b lb,
      rest,
    )

-- The five keys and hashes of a message.
pub record Subject : Type 0 where
  pub program_id : Pubkey
  pub escrow : Pubkey
  pub pending_settlement : Pubkey
  pub dispute : Pubkey
  pub receipt_hash : Hash

-- They are 32 bytes each.
pub record IsSubject (s : Subject) : Type 0 where
  pub program_fits : s.program_id < 2 ^ 256
  pub escrow_fits : s.escrow < 2 ^ 256
  pub pending_fits : s.pending_settlement < 2 ^ 256
  pub dispute_fits : s.dispute < 2 ^ 256
  pub receipt_fits : s.receipt_hash < 2 ^ 256

abbrev pub message_of : Subject → Bytes
message_of s =
    build_receipt_signature_message s.program_id s.escrow s.pending_settlement s.dispute
      s.receipt_hash

-- Two messages for receipts are equal only if they are for the same receipt of the same dispute of
-- the same settlement of the same escrow, under the same program: a signature for one is none for
-- another.
pub build_receipt_signature_message-injective :
    (s t : Subject) → IsSubject s → IsSubject t → message_of s ≡ message_of t → s ≡ t
unfolding build_receipt_signature_message
build_receipt_signature_message-injective s t fs ft e =
    let (_, e₀) = append-injective receipt_signature_domain _ receipt_signature_domain _ refl e in
    let (program, e₁) = key_bytes-injective _ _ _ _ fs.program_fits ft.program_fits e₀ in
    let (escrow, e₂) = key_bytes-injective _ _ _ _ fs.escrow_fits ft.escrow_fits e₁ in
    let (pending, e₃) = key_bytes-injective _ _ _ _ fs.pending_fits ft.pending_fits e₂ in
    let (dispute, e₄) = key_bytes-injective _ _ _ _ fs.dispute_fits ft.dispute_fits e₃ in
    let receipt : s.receipt_hash ≡ t.receipt_hash =
      sym (of_be_bytes-be_bytes 32 s.receipt_hash fs.receipt_fits)
      ∙ ap (of_be_bytes 0) e₄
      ∙ of_be_bytes-be_bytes 32 t.receipt_hash ft.receipt_fits in
    cc (program, escrow, pending, dispute, receipt)
