-- ===== src/Dispute/Remaining.antt =====
-- instructions/dispute.rs: the deprecated `try_slash_from_remaining`, which no handler calls.
use synapse_sap.Common.{
  ℕ, ◌+◌, ◌≡◌, ap, ◌∙◌, Bool, true, ◌&&◌, List, [], ◌∷◌, ◌++◌, leb, ◌==◌, if◌then◌else◌, length,
  take, drop, bytes_eq, Bool-cases, inl, inr, arith,
}
use synapse_sap.Errors.{
  Result, ok, err, program, require, ◌>>=◌, ◌>>◌, stake_agent_mismatch, >>=-eq-ok, Result-cases,
}
use synapse_sap.State.{Pubkey, Bytes, AgentStake}
use synapse_sap.Runtime.{Bank, AccountInfo, move_lamports}
use synapse_sap.Dispute.Slash.{slash_of, book_slash}

-- What Anchor derives for the account: its discriminator, the reading of an account, and all that
-- `try_serialize` writes, the discriminator first.
pub record StakeAccount : Type 0 where
  pub program_id : Pubkey
  pub discriminator : Bytes
  pub try_from : Pubkey → Bank → Result AgentStake
  pub serialized : AgentStake → Bytes

-- Writes into `data[8..]`, where they fit; 3004 is Anchor's AccountDidNotSerialize.
abbrev pub write_after_discriminator : Bytes → Bytes → Result Bytes
write_after_discriminator old new =
    if leb (8 + length new) (length old)
    then ok (take 8 old ++ (new ++ drop (8 + length new) old))
    else err (program 3004)

abbrev pub put_bytes : Bank → Pubkey → Bytes → Bank
put_bytes bank key bytes = record bank { bytes = λ j. if key == j then bytes else bank.bytes j }

move_lamports-bytes :
    (from to : Pubkey) (amount : ℕ) (bank bank' : Bank)
    → move_lamports from to amount bank ≡ ok bank'
    → bank'.bytes ≡ bank.bytes
unfolding move_lamports
move_lamports-bytes from to amount bank bank' h = ground arith

module _ (anchor_stake : StakeAccount) where
  -- The owner, the flag and the discriminator.
  abbrev pub is_stake : Bank → AccountInfo → Bool
  is_stake bank acc =
      bank.owner acc.key == anchor_stake.program_id
      && (acc.is_writable
          && (leb 8 (length (bank.bytes acc.key))
              && bytes_eq (take 8 (bank.bytes acc.key)) anchor_stake.discriminator))

  -- The body for the account that was found.
  unfoldable pub slash_remaining : AccountInfo → ℕ → Pubkey → Pubkey → Bank → Result (ℕ × Bank)
  unfolding slash_of book_slash
  slash_remaining acc dispute_amount depositor expected_agent bank = do
    stake ← anchor_stake.try_from acc.key bank
    require (stake.agent == expected_agent) stake_agent_mismatch
    slash ← slash_of dispute_amount stake.staked_amount
    if slash == 0 then ok (0, bank) else (do
      bank₁ ← move_lamports acc.key depositor slash bank
      bytes ←
          write_after_discriminator (bank₁.bytes acc.key)
            (anchor_stake.serialized (book_slash slash stake))
      ok (slash, put_bytes bank₁ acc.key bytes))

  unfoldable pub try_slash_from_remaining :
      List AccountInfo → ℕ → Pubkey → Pubkey → Bank → Result (ℕ × Bank)
  unfolding slash_remaining
  try_slash_from_remaining [] dispute_amount depositor expected_agent bank = ok (0, bank)
  try_slash_from_remaining (acc ∷ remaining) dispute_amount depositor expected_agent bank =
      let rest = try_slash_from_remaining remaining dispute_amount depositor expected_agent bank in
      if is_stake bank acc
      then slash_remaining acc dispute_amount depositor expected_agent bank
      else rest

  module _ (bank : Bank) (dispute_amount : ℕ) (depositor expected_agent : Pubkey)
      (exact : (acc : AccountInfo) (s : AgentStake)
        → is_stake bank acc ≡ true
        → length (bank.bytes acc.key) ≡ length (anchor_stake.serialized s)) where
    slash_remaining-zero :
        (acc : AccountInfo) (slash : ℕ) (bank' : Bank)
        → is_stake bank acc ≡ true
        → slash_remaining acc dispute_amount depositor expected_agent bank ≡ ok (slash, bank')
        → (slash ≡ 0) × (bank' ≡ bank)
    unfolding slash_remaining
    slash_remaining-zero acc slash bank' here h =
        let (stake, read, h₁) = >>=-eq-ok (anchor_stake.try_from acc.key bank) _ h in
        let (_, own, h₂) =
          >>=-eq-ok (require (stake.agent == expected_agent) stake_agent_mismatch) _ h₁ in
        let (s, of, h₃) = >>=-eq-ok (slash_of dispute_amount stake.staked_amount) _ h₂ in
        elim (Bool-cases (s == 0)) [
          | inl nothing ↦ (ground arith, ground arith)
          | inr something ↦ elim (Result-cases (move_lamports acc.key depositor s bank)) [
            | inl (bank₁, moved) ↦
                let room : length (bank₁.bytes acc.key)
                    ≡ length (anchor_stake.serialized (book_slash s stake)) =
                  ap (λ f. length (f acc.key))
                    (move_lamports-bytes acc.key depositor s bank bank₁ moved)
                  ∙ exact acc (book_slash s stake) here in
                ground (arith, room)
            | inr (e, failed) ↦ ground arith
          ]
        ]

    -- Where an account of a stake has room for the stake and its discriminator once, as `init` makes
    -- it, nothing is ever slashed: the second discriminator takes the room of the stake's last bytes,
    -- and the call fails.
    pub try_slash_from_remaining-zero :
        (remaining : List AccountInfo) (slash : ℕ) (bank' : Bank)
        → try_slash_from_remaining remaining dispute_amount depositor expected_agent bank
          ≡ ok (slash, bank')
        → (slash ≡ 0) × (bank' ≡ bank)
    unfolding try_slash_from_remaining
    try_slash_from_remaining-zero [] slash bank' h = (ground arith, ground arith)
    try_slash_from_remaining-zero (acc ∷ remaining) slash bank' h =
        elim (Bool-cases (is_stake bank acc)) [
          | inl here ↦ slash_remaining-zero acc slash bank' here (ground arith)
          | inr other ↦ try_slash_from_remaining-zero remaining slash bank' (ground arith)
        ]
