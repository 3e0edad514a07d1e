-- ===== src/Staking/Floor.antt =====
-- The guarantees of a stake: the permanent floor, the cooldown, and a pending unstake that the
-- stake always covers.
use synapse_sap.Common.{ℕ, ◌+◌, ◌≤◌, ◌<◌, ◌≡◌, ◌⊎◌, inl, inr, arith}
use synapse_sap.Common.Int.{◌+ℤ◌, ◌≤ℤ◌}
use synapse_sap.Errors.{ok}
use synapse_sap.State.{AgentStake, min_stake, unstake_cooldown_seconds}
use synapse_sap.Runtime.{Runtime, Bank, Clock}
use synapse_sap.Checked.{checked_add_i64}
use synapse_sap.Staking.Handlers.{
  StakeAccounts, init_stake, deposit_stake, request_unstake, complete_unstake, book_stake_deposit,
  book_request, unstake_withdrawal, book_unstaked,
}

-- An unstake that completes comes no earlier than the time recorded for it, takes something and no
-- more than what was asked for, leaves the permanent floor of the stake in place, and leaves no
-- unstake pending.
pub unstake_keeps_floor :
    (rt : Runtime) (a : StakeAccounts) (clock : Clock) (bank bank' : Bank) (stake' : AgentStake)
    → complete_unstake rt a clock bank ≡ ok (stake', bank')
    → (min_stake ≤ stake'.staked_amount)
      × (stake'.staked_amount < a.stake.staked_amount)
      × (a.stake.staked_amount ≤ stake'.staked_amount + a.stake.unstake_amount)
      × (stake'.unstake_amount ≡ 0)
      × (a.stake.unstake_available_at ≤ℤ clock.unix_timestamp)
unfolding complete_unstake unstake_withdrawal book_unstaked
unstake_keeps_floor rt a clock bank bank' stake' h = ground arith

-- A pending unstake is covered by the stake.
abbrev pub IsCovered : AgentStake → Type 0
IsCovered stake = stake.unstake_amount ≤ stake.staked_amount

-- A new stake, a top-up, a request and a completion, where they succeed on a stake that covers its
-- pending unstake, leave one that does.
pub stake_handlers-IsCovered :
    (rt : Runtime) (a : StakeAccounts) (amount : ℕ) (clock : Clock) (bank bank' : Bank)
    (stake' : AgentStake)
    → IsCovered a.stake
    → ((init_stake rt a amount clock bank ≡ ok (stake', bank'))
        ⊎ (deposit_stake rt a amount clock bank ≡ ok (stake', bank')))
      ⊎ ((request_unstake rt a amount clock ≡ ok stake')
          ⊎ (complete_unstake rt a clock bank ≡ ok (stake', bank')))
    → IsCovered stake'
unfolding init_stake deposit_stake request_unstake complete_unstake book_stake_deposit book_request
    unstake_withdrawal book_unstaked
stake_handlers-IsCovered rt a amount clock bank bank' stake' c (inl (inl h)) = ground arith
stake_handlers-IsCovered rt a amount clock bank bank' stake' c (inl (inr h)) = ground arith
stake_handlers-IsCovered rt a amount clock bank bank' stake' c (inr (inl h)) = ground arith
stake_handlers-IsCovered rt a amount clock bank bank' stake' c (inr (inr h)) = ground arith

-- A request locks the floor away from the unstake, and puts its completion seven days off.
request_terms :
    (rt : Runtime) (a : StakeAccounts) (amount : ℕ) (clock : Clock) (stake' : AgentStake)
    → request_unstake rt a amount clock ≡ ok stake'
    → (min_stake + amount ≤ a.stake.staked_amount)
      × (stake' ≡ record (a.stake) {
        unstake_requested_at = clock.unix_timestamp;
        unstake_amount = amount;
        unstake_available_at = clock.unix_timestamp +ℤ unstake_cooldown_seconds;
      })
unfolding request_unstake book_request checked_add_i64
request_terms rt a amount clock stake' h = ground arith

-- Between the request of an unstake and a completion on the stake that the request left, at least
-- seven days pass.
pub unstake_waits :
    (rt : Runtime) (a b : StakeAccounts) (amount : ℕ) (at later : Clock) (bank bank' : Bank)
    (requested stake' : AgentStake)
    → request_unstake rt a amount at ≡ ok requested
    → b.stake ≡ requested
    → complete_unstake rt b later bank ≡ ok (stake', bank')
    → at.unix_timestamp +ℤ unstake_cooldown_seconds ≤ℤ later.unix_timestamp
unstake_waits rt a b amount at later bank bank' requested stake' asked same done = ground (
  arith,
  request_terms rt a amount at requested asked,
  unstake_keeps_floor rt b later bank bank' stake' done,
)
