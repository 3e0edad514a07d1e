-- ===== src/Escrow/Deposit.antt =====
-- instructions/escrow_v2.rs: `deposit_escrow_v2`.
use synapse_sap.Common.{ℕ, true, List, leb, ltb, ◌==◌, if◌then◌else◌}
use synapse_sap.Common.Int.{pos, ltb_ℤ}
use synapse_sap.Errors.{
  Result, ok, require, constraint, ◌>>=◌, ◌>>◌, constraint_seeds, constraint_has_one,
  escrow_coverage_exceeded, escrow_expired,
}
use synapse_sap.Checked.{checked_add_u64}
use synapse_sap.State.{Pubkey, EscrowAccountV2}
use synapse_sap.Runtime.{Runtime, Bank, AccountInfo, Clock}
use synapse_sap.Seeds.{escrow_seeds, at_bump}
use synapse_sap.Escrow.Create.{take_deposit}

pub record DepositAccounts : Type 0 where
  pub depositor : Pubkey
  pub escrow_key : Pubkey
  pub escrow : EscrowAccountV2
  pub remaining : List AccountInfo

-- The cap on the balance, skipped where `max_obligation` is 0.
unfoldable pub check_obligation : EscrowAccountV2 → ℕ → Result (Unit {0})
check_obligation e amount =
    if ltb 0 e.max_obligation
    then (do
      projected ← checked_add_u64 e.balance amount
      require (leb projected e.max_obligation) escrow_coverage_exceeded)
    else ok tt

unfoldable pub check_expiry : EscrowAccountV2 → Clock → Result (Unit {0})
check_expiry e clock =
    require (if ltb_ℤ (pos 0) e.expires_at then ltb_ℤ clock.unix_timestamp e.expires_at else true)
      escrow_expired

unfoldable pub book_deposit : ℕ → EscrowAccountV2 → Result EscrowAccountV2
book_deposit amount e = do
  balance' ← checked_add_u64 e.balance amount
  total' ← checked_add_u64 e.total_deposited amount
  ok (record e { balance = balance'; total_deposited = total' })

module _ (rt : Runtime) where
  unfoldable pub deposit_constraints : DepositAccounts → ℕ → Result (Unit {0})
  deposit_constraints accounts nonce = do
    constraint
        (at_bump rt (escrow_seeds accounts.escrow.agent accounts.depositor nonce)
          accounts.escrow.bump accounts.escrow_key)
        constraint_seeds
    constraint (accounts.escrow.depositor == accounts.depositor) constraint_has_one

  unfoldable pub deposit_escrow_v2 :
      DepositAccounts → ℕ → ℕ → Clock → Bank → Result (EscrowAccountV2 × Bank)
  unfolding deposit_constraints
  deposit_escrow_v2 accounts nonce amount clock bank = do
    deposit_constraints accounts nonce
    check_obligation accounts.escrow amount
    check_expiry accounts.escrow clock
    bank₁ ←
        take_deposit rt accounts.depositor accounts.escrow_key accounts.remaining
          accounts.escrow.token_mint amount bank
    e ← book_deposit amount accounts.escrow
    ok (e, bank₁)
