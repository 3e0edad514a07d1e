-- ===== src/Token.antt =====
-- instructions/escrow_v2.rs and instructions/receipt.rs: the transfers of SPL tokens, with the
-- checks on the accounts that the caller passes along, and the search for the treasury.
use synapse_sap.Common.{
  ℕ, Bool, true, not, Option, none, some, List, [], ◌∷◌, leb, ◌==◌, if◌then◌else◌, length,
  get_elem?, take, slice, le_bytes, of_be_bytes,
}
use synapse_sap.Errors.{
  Result, ok, err, sap, panicked, require, ◌>>=◌, ◌>>◌, token_account_owner_mismatch,
  invalid_token_account, invalid_treasury, spl_token_required, invalid_token_program,
}
use synapse_sap.Constants.{protocol_treasury}
use synapse_sap.State.{Pubkey, Bytes, EscrowAccountV2}
use synapse_sap.Runtime.{Bank, AccountInfo, Instruction, Runtime, data_len}
use synapse_sap.Seeds.{escrow_seeds, with_bump}

-- TokenkegQfeZyiNwAJbNbGKPFXCWuBvf9Ss623VQ5DA, by its bytes.
abbrev pub spl_token_program : Pubkey
spl_token_program = 0x06ddf6e1d765a193d9cbe146ceeb79ac1cb485ed5f5b37913a8cf5857eff00a9

unfoldable pub is_spl_token_program : Pubkey → Bool
is_spl_token_program key = key == spl_token_program

-- `if let Some(expected) = …`: the key that the bytes spell is the expected one.
field_matches : Option Pubkey → Bytes → Bool
field_matches none bytes = true
field_matches (some key) bytes = of_be_bytes 0 bytes == key

unfoldable pub validate_token_account :
    AccountInfo → Option Pubkey → Option Pubkey → AccountInfo → Bank → Result (Unit {0})
unfolding field_matches
validate_token_account token_account expected_mint expected_owner token_program bank = do
  require (bank.owner token_account.key == token_program.key) token_account_owner_mismatch
  require (leb 165 (data_len bank token_account.key)) invalid_token_account
  let account_data = bank.bytes token_account.key
  require (field_matches expected_mint (take 32 account_data)) invalid_token_account
  require (field_matches expected_owner (slice account_data 32 32)) invalid_treasury

abbrev account_at : List AccountInfo → ℕ → Result AccountInfo
account_at accounts i = elim (get_elem? accounts i) [ none ↦ err panicked | some a ↦ ok a ]

-- The token program's `Transfer`: tag 3 and the amount in eight little-endian bytes.
abbrev pub transfer_instruction : Pubkey → Pubkey → Pubkey → Pubkey → ℕ → Instruction
transfer_instruction token_program source dest authority amount = record {
  program_id = token_program;
  accounts = source ∷ dest ∷ authority ∷ [];
  data_bytes = 3 ∷ le_bytes 8 amount;
}

unfoldable pub find_native_treasury : List AccountInfo → Result AccountInfo
find_native_treasury [] = err (sap invalid_treasury)
find_native_treasury (account ∷ remaining) =
    if account.key == protocol_treasury
    then (do require account.is_writable invalid_treasury; ok account)
    else find_native_treasury remaining

module _ (rt : Runtime) where
  unfoldable pub spl_transfer_from_signer :
      Pubkey → List AccountInfo → ℕ → Option Pubkey → Option Pubkey → Bank → Result Bank
  spl_transfer_from_signer depositor remaining amount expected_mint expected_dest_owner bank = do
    require (leb 3 (length remaining)) spl_token_required
    source_token ← account_at remaining 0
    dest_token ← account_at remaining 1
    token_program ← account_at remaining 2
    require (is_spl_token_program token_program.key) invalid_token_program
    require (not (source_token.key == dest_token.key)) invalid_token_account
    validate_token_account source_token expected_mint (some depositor) token_program bank
    validate_token_account dest_token expected_mint expected_dest_owner token_program bank
    rt.invoke
        (transfer_instruction token_program.key source_token.key dest_token.key depositor amount) []
        bank

  -- The escrow signs: `escrow_key` is its address, `e` its account.
  unfoldable pub spl_transfer_from_escrow_v2 :
      Pubkey → EscrowAccountV2 → List AccountInfo → ℕ → Option Pubkey → Bank → Result Bank
  spl_transfer_from_escrow_v2 escrow_key e remaining amount expected_dest_owner bank = do
    require (leb 3 (length remaining)) spl_token_required
    escrow_token ← account_at remaining 0
    dest_token ← account_at remaining 1
    token_program ← account_at remaining 2
    require (is_spl_token_program token_program.key) invalid_token_program
    require (not (escrow_token.key == dest_token.key)) invalid_token_account
    validate_token_account escrow_token e.token_mint (some escrow_key) token_program bank
    validate_token_account dest_token e.token_mint expected_dest_owner token_program bank
    rt.invoke
        (transfer_instruction token_program.key escrow_token.key dest_token.key escrow_key amount)
        (with_bump (escrow_seeds e.agent e.depositor e.escrow_nonce) e.bump) bank

  unfoldable pub spl_transfer_protocol_fee_from_escrow_v2 :
      Pubkey → EscrowAccountV2 → List AccountInfo → ℕ → Bank → Result Bank
  spl_transfer_protocol_fee_from_escrow_v2 escrow_key e remaining amount bank =
      if amount == 0 then ok bank else (do
        require (leb 4 (length remaining)) spl_token_required
        escrow_token ← account_at remaining 0
        token_program ← account_at remaining 2
        treasury_token ← account_at remaining 3
        require (is_spl_token_program token_program.key) invalid_token_program
        validate_token_account escrow_token e.token_mint none token_program bank
        validate_token_account treasury_token e.token_mint (some protocol_treasury) token_program
            bank
        rt.invoke
            (transfer_instruction token_program.key escrow_token.key treasury_token.key escrow_key
              amount)
            (with_bump (escrow_seeds e.agent e.depositor e.escrow_nonce) e.bump) bank)

  -- receipt.rs: the accounts are named by their places in the caller's list.
  unfoldable pub spl_transfer_from_escrow_to_account :
      Pubkey
      → EscrowAccountV2
      → AccountInfo
      → AccountInfo
      → AccountInfo
      → ℕ
      → Option Pubkey
      → Bank
      → Result Bank
  spl_transfer_from_escrow_to_account escrow_key e escrow_token dest_token token_program amount
        expected_dest_owner bank =
      do
        require (is_spl_token_program token_program.key) invalid_token_program
        require (not (escrow_token.key == dest_token.key)) invalid_token_account
        validate_token_account escrow_token e.token_mint (some escrow_key) token_program bank
        validate_token_account dest_token e.token_mint expected_dest_owner token_program bank
        rt.invoke
            (transfer_instruction token_program.key escrow_token.key dest_token.key escrow_key
              amount)
            (with_bump (escrow_seeds e.agent e.depositor e.escrow_nonce) e.bump) bank
