-- ===== src/Dispute/Collateral.antt =====
-- What a slash takes, and that it leaves a pending unstake within the stake.
use synapse_sap.Common.{ℕ, ◌+◌, ◌-◌, ◌*◌, ◌/◌, ◌≤◌, ◌<◌, ◌≡◌, arith, min, if◌then◌else◌, ◌==◌}
use native.Mathlib.Nat.{le-div_iff_mul-le}
use native.Mathlib.Decide.{dec_lt}
use synapse_sap.Errors.{ok}
use synapse_sap.State.{Pubkey, AgentStake}
use synapse_sap.Runtime.{Bank, move_lamports_lem}
use synapse_sap.Dispute.Slash.{slash_of, try_slash_from_account}

-- What a slash does to the stake and to the depositor's lamports.
pub record IsSlash (key depositor : Pubkey) (stake : AgentStake) (amount : ℕ) (bank : Bank)
    (stake' : AgentStake) (slash : ℕ) (bank' : Bank) : Type 0 where
  pub half : slash ≡ min (amount / 2) stake.staked_amount
  pub taken : stake'.staked_amount + slash ≡ stake.staked_amount
  pub moved :
      (k : Pubkey)
      → bank'.lamports k + (if key == k then slash else 0)
        ≡ bank.lamports k + (if depositor == k then slash else 0)

slash_of-half :
    (amount staked slash : ℕ) → slash_of amount staked ≡ ok slash → slash ≡ min (amount / 2) staked
unfolding slash_of
slash_of-half amount staked slash h = ground arith

-- A slash takes half of the disputed amount, rounded down, or all of the stake if that is less; the
-- stake falls by just that, and just that goes from the stake's account to the depositor.
pub try_slash_from_account_lem :
    (key : Pubkey) (stake : AgentStake) (amount : ℕ) (depositor agent : Pubkey) (bank : Bank)
    (stake' : AgentStake) (slash : ℕ) (bank' : Bank)
    → try_slash_from_account key stake amount depositor agent bank ≡ ok (stake', slash, bank')
    → IsSlash key depositor stake amount bank stake' slash bank'
unfolding try_slash_from_account
try_slash_from_account_lem key stake amount depositor agent bank stake' slash bank' h = record {
  half = ground arith;
  taken = ground arith;
  moved = λ k. ground (arith, move_lamports_lem key depositor slash bank bank' k);
}

product_bound : (a b d : ℕ) → d * (a + b + d) ≤ (b + d) * (a + d)
product_bound a b d = omega arith

-- Of an unstake `u` within a stake `S`, the part that a slash of `s` leaves is within what it
-- leaves of the stake.
shrunk_fits : (S u s : ℕ) → u ≤ S → s ≤ S → 0 < S → u - u * s / S ≤ S - s
shrunk_fits S u s hu hs pos =
    let d = u + s - S in
    let scaled : S < u + s → d * S ≤ u * s = λ over.
      let eu : u ≡ (S - s) + d = omega arith in
      let es : s ≡ (S - u) + d = omega arith in
      let eS : S ≡ (S - u) + (S - s) + d = omega arith in
      grind (arith, product_bound (S - u) (S - s) d, eu, es, eS) in
    elim (dec_lt S (u + s)) [
      | yes over ↦ omega (arith, (le-div_iff_mul-le {x = d} {y = u * s} pos).1 (scaled over))
      | no under ↦ omega arith
    ]

-- A slash of a stake that covers its pending unstake leaves one that does.
pub slash_keeps_unstake_covered :
    (key : Pubkey) (stake : AgentStake) (amount : ℕ) (depositor agent : Pubkey) (bank : Bank)
    (stake' : AgentStake) (slash : ℕ) (bank' : Bank)
    → stake.unstake_amount ≤ stake.staked_amount
    → try_slash_from_account key stake amount depositor agent bank ≡ ok (stake', slash, bank')
    → stake'.unstake_amount ≤ stake'.staked_amount
unfolding try_slash_from_account
slash_keeps_unstake_covered key stake amount depositor agent bank stake' slash bank' covered h =
    ground (
      arith,
      slash_of-half amount stake.staked_amount slash,
      shrunk_fits stake.staked_amount stake.unstake_amount slash covered,
    )
