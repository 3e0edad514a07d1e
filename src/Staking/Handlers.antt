-- ===== src/Staking/Handlers.antt =====
-- instructions/staking.rs: deposits, the two steps of an unstake, and the recovery of a stake.
use synapse_sap.Common.{ℕ, leb, ltb, ◌==◌, min}
use synapse_sap.Common.Int.{pos, leb_ℤ, ltb_ℤ, eqb_ℤ}
use synapse_sap.Errors.{
  Result, ok, require, constraint, ◌>>=◌, ◌>>◌, constraint_seeds, constraint_has_one,
  constraint_raw, stake_below_minimum, no_stake_account, unstake_already_pending,
  insufficient_stake, arithmetic_overflow, no_unstake_pending, unstake_cooldown_not_met,
  unstake_below_rent, stake_agent_mismatch, stake_not_closable,
}
use synapse_sap.Checked.{checked_add_u64, checked_sub_u64, checked_add_i64, saturating_sub}
use synapse_sap.State.{Pubkey, AgentAccount, AgentStake, min_stake, unstake_cooldown_seconds}
use synapse_sap.Runtime.{Runtime, Bank, Clock, move_lamports, data_len, data_is_empty}
use synapse_sap.Seeds.{agent_seeds, stake_seeds, at_address, at_bump}

-- The accounts of every handler but `init_stake`, which finds no stake yet.
pub record StakeAccounts : Type 0 where
  pub wallet : Pubkey
  pub agent_key : Pubkey
  pub agent : AgentAccount
  pub stake_key : Pubkey
  pub stake : AgentStake

abbrev pub new_stake : StakeAccounts → ℕ → ℕ → Clock → AgentStake
new_stake accounts bump deposit clock = record {
  bump = bump;
  agent = accounts.agent_key;
  wallet = accounts.wallet;
  staked_amount = deposit;
  slashed_amount = 0;
  last_stake_at = clock.unix_timestamp;
  unstake_requested_at = pos 0;
  unstake_amount = 0;
  unstake_available_at = pos 0;
  total_disputes_won = 0;
  total_disputes_lost = 0;
  created_at = clock.unix_timestamp;
}

abbrev no_unstake : AgentStake → AgentStake
no_unstake stake = record stake {
  unstake_requested_at = pos 0;
  unstake_amount = 0;
  unstake_available_at = pos 0;
}

-- A top-up cancels a pending unstake.
unfoldable pub book_stake_deposit : ℕ → Clock → AgentStake → Result AgentStake
book_stake_deposit amount clock stake = do
  staked ← checked_add_u64 stake.staked_amount amount
  ok (record (no_unstake stake) { staked_amount = staked; last_stake_at = clock.unix_timestamp })

-- The constraints on the stake, and the body of `request_unstake`.
unfoldable pub book_request : ℕ → Clock → AgentStake → Result AgentStake
book_request amount clock stake = do
  require (ltb 0 stake.staked_amount) no_stake_account
  require (eqb_ℤ stake.unstake_requested_at (pos 0)) unstake_already_pending
  require (ltb 0 amount) stake_below_minimum
  require (leb amount stake.staked_amount) insufficient_stake
  remaining_after ← checked_sub_u64 stake.staked_amount amount arithmetic_overflow
  require (leb min_stake remaining_after) stake_below_minimum
  available_at ← checked_add_i64 clock.unix_timestamp unstake_cooldown_seconds
  ok (record stake {
    unstake_requested_at = clock.unix_timestamp;
    unstake_amount = amount;
    unstake_available_at = available_at;
  })

-- What can be withdrawn: the amount asked for, as far as the account's rent allows.
unfoldable pub unstake_withdrawal : AgentStake → ℕ → ℕ → Clock → Result ℕ
unstake_withdrawal stake lamports min_rent clock = do
  require (leb_ℤ stake.unstake_available_at clock.unix_timestamp) unstake_cooldown_not_met
  let actual_withdraw = min stake.unstake_amount (saturating_sub lamports min_rent)
  require (ltb 0 actual_withdraw) unstake_below_rent
  require (leb min_stake (saturating_sub stake.staked_amount actual_withdraw)) stake_below_minimum
  ok actual_withdraw

unfoldable pub book_unstaked : ℕ → AgentStake → AgentStake
book_unstaked amount stake = record (no_unstake stake) {
  staked_amount = saturating_sub stake.staked_amount amount;
}

module _ (rt : Runtime) where
  unfoldable pub agent_constraints : StakeAccounts → Result (Unit {0})
  agent_constraints accounts = do
    constraint (at_address rt (agent_seeds accounts.wallet) accounts.agent_key) constraint_seeds
    constraint (accounts.agent.wallet == accounts.wallet) constraint_has_one

  unfoldable pub stake_constraints : StakeAccounts → Result (Unit {0})
  unfolding agent_constraints
  stake_constraints accounts = do
    agent_constraints accounts
    constraint (at_bump rt (stake_seeds accounts.agent_key) accounts.stake.bump accounts.stake_key)
        constraint_seeds
    constraint (accounts.stake.agent == accounts.agent_key) constraint_raw

  -- The field `stake` of the accounts is not read: the account is created here.
  unfoldable pub init_stake : StakeAccounts → ℕ → Clock → Bank → Result (AgentStake × Bank)
  unfolding agent_constraints
  init_stake accounts initial_deposit clock bank = do
    agent_constraints accounts
    let seeds = stake_seeds accounts.agent_key
    constraint (at_address rt seeds accounts.stake_key) constraint_seeds
    bank₁ ← rt.init accounts.wallet accounts.stake_key bank
    require (leb min_stake initial_deposit) stake_below_minimum
    bank₂ ← rt.system_transfer accounts.wallet accounts.stake_key initial_deposit bank₁
    ok (new_stake accounts (rt.find_program_address seeds).1 initial_deposit clock, bank₂)

  unfoldable pub deposit_stake : StakeAccounts → ℕ → Clock → Bank → Result (AgentStake × Bank)
  unfolding stake_constraints
  deposit_stake accounts amount clock bank = do
    stake_constraints accounts
    bank₁ ← rt.system_transfer accounts.wallet accounts.stake_key amount bank
    stake ← book_stake_deposit amount clock accounts.stake
    ok (stake, bank₁)

  unfoldable pub request_unstake : StakeAccounts → ℕ → Clock → Result AgentStake
  unfolding stake_constraints
  request_unstake accounts amount clock = do
    stake_constraints accounts
    book_request amount clock accounts.stake

  unfoldable pub complete_unstake : StakeAccounts → Clock → Bank → Result (AgentStake × Bank)
  unfolding stake_constraints
  complete_unstake accounts clock bank = do
    stake_constraints accounts
    require (ltb_ℤ (pos 0) accounts.stake.unstake_requested_at) no_unstake_pending
    let key = accounts.stake_key
    amount ←
        unstake_withdrawal accounts.stake (bank.lamports key)
          (rt.minimum_balance (data_len bank key)) clock
    bank₁ ← move_lamports key accounts.wallet amount bank
    ok (book_unstaked amount accounts.stake, bank₁)

  -- The field `agent` of the accounts is not read: the agent's account may be gone, and must be.
  unfoldable pub close_stake : StakeAccounts → Bank → Result Bank
  close_stake accounts bank = do
    constraint (at_address rt (agent_seeds accounts.wallet) accounts.agent_key) constraint_seeds
    constraint (at_bump rt (stake_seeds accounts.agent_key) accounts.stake.bump accounts.stake_key)
        constraint_seeds
    constraint (accounts.stake.wallet == accounts.wallet) constraint_has_one
    require (accounts.stake.agent == accounts.agent_key) stake_agent_mismatch
    require (data_is_empty bank accounts.agent_key) stake_not_closable
    rt.close accounts.stake_key accounts.wallet bank
