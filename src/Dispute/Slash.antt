-- ===== src/Dispute/Slash.antt =====
-- instructions/dispute.rs: `try_slash_from_account`, which takes half of a disputed amount from the
-- agent's stake.
use synapse_sap.Common.{ℕ, ◌/◌, ltb, ◌==◌, if◌then◌else◌, min, max}
use synapse_sap.Common.Int.{pos}
use synapse_sap.Errors.{Result, ok, require, ◌>>=◌, ◌>>◌, stake_agent_mismatch}
use synapse_sap.Checked.{checked_mul_u64, saturating_sub, saturating_add_u64, saturating_add_u32}
use synapse_sap.State.{Pubkey, AgentStake, slash_bps}
use synapse_sap.Runtime.{Bank, move_lamports}

-- The amount to slash: half of the disputed amount, at most the stake.
unfoldable pub slash_of : ℕ → ℕ → Result ℕ
slash_of dispute_amount staked = do
  product ← checked_mul_u64 dispute_amount slash_bps
  ok (min (product / 10000) staked)

-- A pending unstake shrinks in proportion; one that comes to nothing is withdrawn.
unfoldable pub shrink_unstake : ℕ → AgentStake → Result AgentStake
shrink_unstake slash stake =
    if ltb 0 stake.unstake_amount
    then (do
      product ← checked_mul_u64 stake.unstake_amount slash
      let rest = saturating_sub stake.unstake_amount (product / max stake.staked_amount 1)
      ok (
          if rest == 0
          then record stake {
            unstake_amount = rest;
            unstake_requested_at = pos 0;
            unstake_available_at = pos 0;
          }
          else record stake { unstake_amount = rest }))
    else ok stake

unfoldable pub book_slash : ℕ → AgentStake → AgentStake
book_slash slash stake = record stake {
  staked_amount = saturating_sub stake.staked_amount slash;
  slashed_amount = saturating_add_u64 stake.slashed_amount slash;
  total_disputes_lost = saturating_add_u32 stake.total_disputes_lost 1;
}

-- The new stake, the amount slashed, and the bank.
unfoldable pub try_slash_from_account :
    Pubkey → AgentStake → ℕ → Pubkey → Pubkey → Bank → Result (AgentStake × ℕ × Bank)
unfolding slash_of shrink_unstake book_slash
try_slash_from_account stake_key stake dispute_amount depositor expected_agent bank = do
  require (stake.agent == expected_agent) stake_agent_mismatch
  slash ← slash_of dispute_amount stake.staked_amount
  if slash == 0 then ok (stake, 0, bank) else (do
    bank₁ ← move_lamports stake_key depositor slash bank
    stake₁ ← shrink_unstake slash stake
    ok (book_slash slash stake₁, slash, bank₁))
