-- ===== src/Receipt/Signature.antt =====
-- instructions/receipt.rs: the message that both parties sign for a receipt, and the search for the
-- signatures among the transaction's Ed25519 instructions. A usize has 64 bits, and the offsets
-- here are below 2 ^ 18, so the checked additions on them cannot fail and are written as `+`.
use synapse_sap.Common.{
  ℕ, zero, suc, ◌+◌, ◌*◌, Bool, true, false, ◌&&◌, none, some, List, [], ◌∷◌, ◌++◌, leb, ◌==◌,
  if◌then◌else◌, length, get_elem?, slice, bytes_eq,
}
use synapse_sap.Errors.{
  Result, ok, err, panicked, require, ok_or, ◌>>=◌, ◌>>◌, invalid_receipt_proof,
  missing_receipt_signature,
}
use synapse_sap.State.{Pubkey, Hash, Bytes}
use synapse_sap.Runtime.{AccountInfo, Instruction}
use synapse_sap.Seeds.{codes, key_bytes}

-- The instructions sysvar and the program of signatures, which are not in this repository.
pub record Introspection : Type 0 where
  -- `solana_instructions_sysvar::ID` and `solana_sdk_ids::ed25519_program::ID`
  pub sysvar_id : Pubkey
  pub ed25519_id : Pubkey
  pub load_current_index : Result ℕ
  pub load_instruction_at : ℕ → Result Instruction

-- `RECEIPT_SIGNATURE_DOMAIN`
abbrev pub receipt_signature_domain : Bytes
receipt_signature_domain = codes "SAP_RECEIPT_V1"

abbrev pub ed25519_signature_offsets_start : ℕ
ed25519_signature_offsets_start = 2

abbrev pub ed25519_signature_offsets_size : ℕ
ed25519_signature_offsets_size = 14

abbrev pub ed25519_signature_size : ℕ
ed25519_signature_size = 64

abbrev pub ed25519_pubkey_size : ℕ
ed25519_pubkey_size = 32

abbrev pub ed25519_data_in_this_instruction : ℕ
ed25519_data_in_this_instruction = 65535

unfoldable pub build_receipt_signature_message : Pubkey → Pubkey → Pubkey → Pubkey → Hash → Bytes
build_receipt_signature_message program_id escrow pending_settlement dispute receipt_hash =
    receipt_signature_domain
    ++ (key_bytes program_id
        ++ (key_bytes escrow
            ++ (key_bytes pending_settlement ++ (key_bytes dispute ++ key_bytes receipt_hash))))

abbrev byte_at : Bytes → ℕ → Result ℕ
byte_at bytes i = elim (get_elem? bytes i) [ none ↦ err panicked | some b ↦ ok b ]

unfoldable pub read_u16 : Bytes → ℕ → Result ℕ
read_u16 bytes offset = do
  require (leb (offset + 2) (length bytes)) invalid_receipt_proof
  low ← byte_at bytes offset
  high ← byte_at bytes (offset + 1)
  ok (low + 256 * high)

-- The offsets of one signature.
pub record SignatureOffsets : Type 0 where
  pub signature_offset : ℕ
  pub signature_instruction_index : ℕ
  pub public_key_offset : ℕ
  pub public_key_instruction_index : ℕ
  pub message_offset : ℕ
  pub message_size : ℕ
  pub message_instruction_index : ℕ

unfoldable pub read_offsets : Bytes → ℕ → Result SignatureOffsets
unfolding read_u16
read_offsets bytes offset = do
  require (leb (offset + ed25519_signature_offsets_size) (length bytes)) invalid_receipt_proof
  signature_offset ← read_u16 bytes offset
  signature_index ← read_u16 bytes (offset + 2)
  public_key_offset ← read_u16 bytes (offset + 4)
  public_key_index ← read_u16 bytes (offset + 6)
  message_offset ← read_u16 bytes (offset + 8)
  message_size ← read_u16 bytes (offset + 10)
  message_index ← read_u16 bytes (offset + 12)
  ok (record {
    signature_offset = signature_offset;
    signature_instruction_index = signature_index;
    public_key_offset = public_key_offset;
    public_key_instruction_index = public_key_index;
    message_offset = message_offset;
    message_size = message_size;
    message_instruction_index = message_index;
  })

-- The three parts of the signature stand in this instruction.
abbrev pub in_this_instruction : SignatureOffsets → Bool
in_this_instruction o =
    o.signature_instruction_index == ed25519_data_in_this_instruction
    && (o.public_key_instruction_index == ed25519_data_in_this_instruction
        && o.message_instruction_index == ed25519_data_in_this_instruction)

-- The rest of a round: the bounds, and the comparison with the signer and the message.
unfoldable pub signature_matches : Bytes → SignatureOffsets → Bytes → Bytes → Result Bool
signature_matches bytes o signer message = do
  require (leb (o.signature_offset + ed25519_signature_size) (length bytes)) invalid_receipt_proof
  require (leb (o.public_key_offset + ed25519_pubkey_size) (length bytes)) invalid_receipt_proof
  require (leb (o.message_offset + o.message_size) (length bytes)) invalid_receipt_proof
  ok (
      bytes_eq (slice bytes o.public_key_offset ed25519_pubkey_size) signer
      && bytes_eq (slice bytes o.message_offset o.message_size) message)

-- `for sig_index in 0..sig_count`, by the rounds left.
unfoldable pub any_signature : ℕ → ℕ → Bytes → Bytes → Bytes → Result Bool
any_signature zero sig_index bytes signer message = ok false
any_signature (suc rounds) sig_index bytes signer message =
    let rest = any_signature rounds (sig_index + 1) bytes signer message in
    read_offsets bytes
      (ed25519_signature_offsets_start + sig_index * ed25519_signature_offsets_size)
    >>= λ o.
        if in_this_instruction o
        then (signature_matches bytes o signer message >>= λ found. if found then ok true else rest)
        else rest

unfoldable pub ed25519_instruction_contains : Pubkey → Instruction → Bytes → Bytes → Result Bool
ed25519_instruction_contains ed25519_id ix signer message =
    if ix.program_id == ed25519_id
    then (do
      require (leb ed25519_signature_offsets_start (length ix.data_bytes)) invalid_receipt_proof
      sig_count ← byte_at ix.data_bytes 0
      any_signature sig_count 0 ix.data_bytes signer message)
    else ok false

-- `for ix_index in 0..current_ix`, by the rounds left.
unfoldable pub any_instruction : Introspection → ℕ → ℕ → Bytes → Bytes → Result Bool
any_instruction tx zero ix_index signer message = ok false
any_instruction tx (suc rounds) ix_index signer message =
    let rest = any_instruction tx rounds (ix_index + 1) signer message in
    tx.load_instruction_at ix_index >>= λ ix.
    ed25519_instruction_contains tx.ed25519_id ix signer message >>= λ found.
    if found then ok true else rest

unfoldable pub has_verified_ed25519_signature_before :
    Introspection → ℕ → Pubkey → Bytes → Result Bool
has_verified_ed25519_signature_before tx current_ix signer message =
    any_instruction tx current_ix 0 (key_bytes signer) message

-- `find_instructions_sysvar`: the sysvar is among the remaining accounts.
unfoldable pub find_instructions_sysvar : Introspection → List AccountInfo → Result AccountInfo
find_instructions_sysvar tx [] = ok_or none missing_receipt_signature
find_instructions_sysvar tx (acc ∷ remaining) =
    if acc.key == tx.sysvar_id then ok acc else find_instructions_sysvar tx remaining
