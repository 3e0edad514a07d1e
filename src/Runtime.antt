-- ===== src/Runtime.antt =====
-- What the handlers use of Solana and Anchor: the account store, the clock, and, as parameters, the
-- calls of code that is not in this repository.
use synapse_sap.Common.{
  ◌≤◌, arith, ◌≡◌, ℕ, ◌+◌, ◌-◌, Bool, Option, List, ◌==◌, if◌then◌else◌, length,
}
use synapse_sap.Common.Int.{ℤ}
use synapse_sap.Errors.{Result, ok, ◌>>=◌}
use synapse_sap.Checked.{u64_max, sub_u64, add_u64}
use synapse_sap.State.{Pubkey, Hash, Bytes}

-- The accounts by key: lamports, the owning program, and the raw bytes of accounts that the
-- program reads without a type (token accounts, accounts about to be created).
pub record Bank : Type 0 where
  pub lamports : Pubkey → ℕ
  pub owner : Pubkey → Pubkey
  pub bytes : Pubkey → Bytes

-- `AccountInfo`: a key with the flags of the transaction; the rest is read in the bank.
pub record AccountInfo : Type 0 where
  pub key : Pubkey
  pub is_signer : Bool
  pub is_writable : Bool

pub record Clock : Type 0 where
  pub unix_timestamp : ℤ
  pub slot : ℕ

abbrev pub update : (Pubkey → ℕ) → Pubkey → ℕ → Pubkey → ℕ
update f k v j = if k == j then v else f j

-- `**info.try_borrow_mut_lamports()? -= amount`
unfoldable pub debit : Pubkey → ℕ → Bank → Result Bank
debit key amount bank = do
  rest ← sub_u64 (bank.lamports key) amount
  ok (record bank { lamports = update bank.lamports key rest })

-- `**info.try_borrow_mut_lamports()? += amount`
unfoldable pub credit : Pubkey → ℕ → Bank → Result Bank
credit key amount bank = do
  sum ← add_u64 (bank.lamports key) amount
  ok (record bank { lamports = update bank.lamports key sum })

-- The two statements in a row, by which a handler moves lamports out of an account of the program.
unfoldable pub move_lamports : Pubkey → Pubkey → ℕ → Bank → Result Bank
unfolding debit credit
move_lamports from to amount bank = do bank' ← debit from amount bank; credit to amount bank'

-- An instruction for another program, with the keys of its accounts in order.
pub record Instruction : Type 0 where
  pub program_id : Pubkey
  pub accounts : List Pubkey
  pub data_bytes : Bytes

-- The code outside the repository, as parameters: the derivation of program addresses, the system
-- program, the token programs, Anchor's creation and closing of accounts, rent, and SHA-256.
pub record Runtime : Type 0 where
  -- `crate::ID`
  pub program_id : Pubkey
  -- `system_program::ID`
  pub system_program_id : Pubkey
  -- `Pubkey::find_program_address(seeds, &crate::ID)`: the address and its bump.
  pub find_program_address : List Bytes → Pubkey × ℕ
  -- `Pubkey::create_program_address`, as the constraint `bump = …` calls it, the bump the last seed.
  pub create_program_address : List Bytes → Option Pubkey
  -- `system_program::transfer` from the first key to the second.
  pub system_transfer : Pubkey → Pubkey → ℕ → Bank → Result Bank
  -- `invoke` (with no seeds) and `invoke_signed` (with the seeds of the signing account).
  pub invoke : Instruction → List Bytes → Bank → Result Bank
  -- `system_instruction::create_account` of the second key, paid by the first, with lamports, for
  -- the program, signed by the seeds.
  pub create_account : Pubkey → Pubkey → ℕ → List Bytes → Bank → Result Bank
  -- The constraint `init`: the second key is created, paid by the first; it fails if it exists.
  pub init : Pubkey → Pubkey → Bank → Result Bank
  -- The constraint `init_if_needed`: as `init`, where the account does not exist.
  pub init_if_needed : Pubkey → Pubkey → Bank → Result Bank
  -- The constraint `close`: the lamports of the first key go to the second.
  pub close : Pubkey → Pubkey → Bank → Result Bank
  -- `Rent::get()?.minimum_balance` of an account's length.
  pub minimum_balance : ℕ → ℕ
  -- `hash` of bytes.
  pub hash : Bytes → Hash
  -- `hashv` of two hashes.
  pub hash_pair : Hash → Hash → Hash

-- `data.is_empty()` and `data_len()` of an account.
abbrev pub data_len : Bank → Pubkey → ℕ
data_len bank key = length (bank.bytes key)

abbrev pub data_is_empty : Bank → Pubkey → Bool
data_is_empty bank key = data_len bank key == 0

-- Lamports that move leave the account that they come from and reach the other, and no third
-- account changes; an account that pays itself keeps what it has.
pub move_lamports_lem :
    (from to amount : ℕ) (bank bank' : Bank) (k : Pubkey)
    → move_lamports from to amount bank ≡ ok bank'
    → bank'.lamports k + (if from == k then amount else 0)
      ≡ bank.lamports k + (if to == k then amount else 0)
unfolding move_lamports
move_lamports_lem from to amount bank bank' k h = ground arith

-- A transfer that the sender covers and that the receiver has room for goes through.
pub move_lamports-ok :
    (from to amount : ℕ) (bank : Bank)
    → amount ≤ bank.lamports from
    → bank.lamports to + amount ≤ u64_max
    → (bank' : Bank) × (move_lamports from to amount bank ≡ ok bank')
unfolding move_lamports
move_lamports-ok from to amount bank covered room =
    let taken : Pubkey → ℕ = update bank.lamports from (bank.lamports from - amount) in
    (record bank { lamports = update taken to (taken to + amount) }, ground arith)
