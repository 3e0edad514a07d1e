-- ===== src/Tests/Staking.antt =====
-- Runs of the staking handlers and of a slash.
use synapse_sap.Common.{◌≡◌, ◌+◌, ◌≤◌, ◌<◌, refl, inl, inr, arith}
use synapse_sap.Common.Int.{pos, ◌≤ℤ◌, ◌+ℤ◌}
use synapse_sap.Errors.{ok}
use synapse_sap.Checked.{checked_add_i64}
use synapse_sap.State.{AgentStake, min_stake}
use synapse_sap.Runtime.{Bank, update, move_lamports}
use synapse_sap.Seeds.{agent_seeds, stake_seeds, at_address, at_bump}
use synapse_sap.Staking.Handlers.{
  StakeAccounts, request_unstake, complete_unstake, book_request, unstake_withdrawal, book_unstaked,
}
use synapse_sap.Staking.Floor.{IsCovered, unstake_keeps_floor, stake_handlers-IsCovered}
use synapse_sap.Dispute.Slash.{try_slash_from_account}
use synapse_sap.Dispute.Collateral.{slash_keeps_unstake_covered}
use synapse_sap.Tests.Demo

abbrev accounts : AgentStake → StakeAccounts
accounts stake = record {
  wallet = Demo.wallet;
  agent_key = Demo.agent_key;
  agent = Demo.agent;
  stake_key = Demo.stake_key;
  stake = stake;
}

abbrev leaving : AgentStake
leaving = record (Demo.stake) {
  unstake_requested_at = pos 1000;
  unstake_amount = 50000000;
  unstake_available_at = pos 605800;
}

abbrev left : AgentStake
left = record (Demo.stake) { staked_amount = 150000000 }

abbrev paid_bank : Bank
paid_bank = record (Demo.bank) {
  lamports = update (update Demo.bank.lamports Demo.stake_key 950000000) Demo.wallet 1050000000;
}

request-ok : request_unstake Demo.runtime (accounts Demo.stake) 50000000 Demo.clock ≡ ok leaving
unfolding request_unstake book_request checked_add_i64 ◌+ℤ◌ at_address at_bump agent_seeds
    stake_seeds
request-ok = refl

complete-ok :
    complete_unstake Demo.runtime (accounts leaving) (Demo.at 605800 90) Demo.bank
    ≡ ok (left, paid_bank)
unfolding complete_unstake unstake_withdrawal book_unstaked move_lamports at_address at_bump
    agent_seeds stake_seeds
complete-ok = refl

unstake_keeps_floor_example :
    (min_stake ≤ 150000000)
    × (150000000 < 200000000)
    × (200000000 ≤ 150000000 + 50000000)
    × (left.unstake_amount ≡ 0)
    × (pos 605800 ≤ℤ pos 605800)
unstake_keeps_floor_example =
    unstake_keeps_floor Demo.runtime (accounts leaving) (Demo.at 605800 90) Demo.bank paid_bank left
      complete-ok

stake_handlers-IsCovered_example : IsCovered leaving
stake_handlers-IsCovered_example =
    stake_handlers-IsCovered Demo.runtime (accounts Demo.stake) 50000000 Demo.clock Demo.bank
      Demo.bank leaving (omega arith) (inr (inl request-ok))

-- A slash of fifteen million for a disputed amount of thirty, while an unstake is pending.
abbrev slashed : AgentStake
slashed = record leaving {
  staked_amount = 185000000;
  slashed_amount = 15000000;
  unstake_amount = 46250000;
  total_disputes_lost = 1;
}

abbrev slashed_bank : Bank
slashed_bank = record (Demo.bank) {
  lamports = update (update Demo.bank.lamports Demo.stake_key 985000000) Demo.depositor 1015000000;
}

slash-ok :
    try_slash_from_account Demo.stake_key leaving 30000000 Demo.depositor Demo.agent_key Demo.bank
    ≡ ok (slashed, 15000000, slashed_bank)
unfolding try_slash_from_account move_lamports agent_seeds stake_seeds
slash-ok = refl

slash_keeps_unstake_covered_example : 46250000 ≤ 185000000
slash_keeps_unstake_covered_example =
    slash_keeps_unstake_covered Demo.stake_key leaving 30000000 Demo.depositor Demo.agent_key
      Demo.bank slashed 15000000 slashed_bank (omega arith) slash-ok
