-- ===== src/Subscription/Handlers.antt =====
-- instructions/subscription.rs: the handlers.
use synapse_sap.Common.{ℕ, none, ltb, ◌==◌, if◌then◌else◌}
use synapse_sap.Common.Int.{ℤ, pos, pos_part, ltb_ℤ, eqb_ℤ}
use synapse_sap.Errors.{
  Result, ok, require, constraint, ◌>>=◌, ◌>>◌, constraint_seeds, constraint_raw, agent_inactive,
  subscription_cancelled, invalid_agent_wallet, subscription_already_active,
  subscription_insufficient_balance,
}
use synapse_sap.Checked.{checked_add_u64, checked_add_i64, saturating_sub}
use synapse_sap.State.{Pubkey, AgentAccount, Subscription, BillingInterval, interval_seconds}
use synapse_sap.Runtime.{Runtime, Bank, Clock, move_lamports}
use synapse_sap.Seeds.{subscription_seeds, at_address, at_bump}
use synapse_sap.Subscription.Billing.{
  parse_interval, elapsed_intervals, claim_of, book_claim, earned_amount, book_cancel,
}

pub record CreateSubscriptionAccounts : Type 0 where
  pub subscriber : Pubkey
  pub agent_key : Pubkey
  pub agent : AgentAccount
  pub subscription_key : Pubkey

abbrev pub new_subscription :
    CreateSubscriptionAccounts → ℕ → ℕ → BillingInterval → ℕ → ℕ → Clock → ℤ → Subscription
new_subscription accounts sub_id price interval deposit bump clock due = record {
  bump = bump;
  agent = accounts.agent_key;
  subscriber = accounts.subscriber;
  agent_wallet = accounts.agent.wallet;
  sub_id = sub_id;
  price_per_interval = price;
  billing_interval = interval;
  token_mint = none;
  token_decimals = 0;
  balance = deposit;
  total_paid = 0;
  intervals_paid = 0;
  started_at = clock.unix_timestamp;
  last_claimed_at = clock.unix_timestamp;
  cancelled_at = pos 0;
  next_due_at = due;
  created_at = clock.unix_timestamp;
}

-- A transfer that is made only if there is something to transfer.
abbrev pub if_any : ℕ → (Bank → Result Bank) → Bank → Result Bank
if_any amount transfer bank = if ltb 0 amount then transfer bank else ok bank

module _ (rt : Runtime) where
  unfoldable pub create_subscription :
      CreateSubscriptionAccounts → ℕ → ℕ → ℕ → ℕ → Clock → Bank → Result (Subscription × Bank)
  create_subscription accounts sub_id price billing_interval initial_deposit clock bank = do
    let seeds = subscription_seeds accounts.agent_key accounts.subscriber sub_id
    let key = accounts.subscription_key
    require accounts.agent.is_active agent_inactive
    constraint (at_address rt seeds key) constraint_seeds
    bank₁ ← rt.init accounts.subscriber key bank
    interval ← parse_interval billing_interval
    bank₂ ←
        if_any initial_deposit (rt.system_transfer accounts.subscriber key initial_deposit) bank₁
    due ← checked_add_i64 clock.unix_timestamp (pos (interval_seconds interval))
    ok (
      new_subscription accounts sub_id price interval initial_deposit
          (rt.find_program_address seeds).1 clock due,
      bank₂,
    )

  -- The constraint on the address; the payer of `claim_interval` need not be the subscriber.
  unfoldable pub sub_address : Pubkey → Pubkey → Subscription → Result (Unit {0})
  sub_address subscriber key sub =
      constraint (at_bump rt (subscription_seeds sub.agent subscriber sub.sub_id) sub.bump key)
        constraint_seeds

  unfoldable pub fund_subscription :
      Pubkey → Pubkey → Subscription → ℕ → Bank → Result (Subscription × Bank)
  unfolding sub_address
  fund_subscription subscriber key sub amount bank = do
    sub_address subscriber key sub
    constraint (sub.subscriber == subscriber) constraint_raw
    require (eqb_ℤ sub.cancelled_at (pos 0)) subscription_cancelled
    bank₁ ← rt.system_transfer subscriber key amount bank
    balance' ← checked_add_u64 sub.balance amount
    ok (record sub { balance = balance' }, bank₁)

  unfoldable pub claim_interval :
      Pubkey → Pubkey → Subscription → Clock → Bank → Result (Subscription × Bank)
  unfolding sub_address
  claim_interval agent_wallet key sub clock bank = do
    require (agent_wallet == sub.agent_wallet) invalid_agent_wallet
    sub_address sub.subscriber key sub
    require (eqb_ℤ sub.cancelled_at (pos 0)) subscription_cancelled
    c ← claim_of sub (pos_part (elapsed_intervals sub clock))
    bank₁ ← move_lamports key agent_wallet c.amount bank
    sub' ← book_claim c sub
    ok (sub', bank₁)

  unfoldable pub cancel_subscription :
      Pubkey → Pubkey → Pubkey → Subscription → Clock → Bank → Result (Subscription × Bank)
  unfolding sub_address
  cancel_subscription subscriber agent_wallet key sub clock bank = do
    require (agent_wallet == sub.agent_wallet) invalid_agent_wallet
    sub_address subscriber key sub
    constraint (sub.subscriber == subscriber) constraint_raw
    require (eqb_ℤ sub.cancelled_at (pos 0)) subscription_cancelled
    let earned = elapsed_intervals sub clock
    let pay = earned_amount sub earned
    bank₁ ← if_any pay (move_lamports key agent_wallet pay) bank
    let refund = saturating_sub sub.balance pay
    bank₂ ← if_any refund (move_lamports key subscriber refund) bank₁
    ok (book_cancel pay earned clock sub, bank₂)

  unfoldable pub close_subscription : Pubkey → Pubkey → Subscription → Bank → Result Bank
  close_subscription subscriber key sub bank = do
    sub_address subscriber key sub
    constraint (sub.subscriber == subscriber) constraint_raw
    require (ltb_ℤ (pos 0) sub.cancelled_at) subscription_already_active
    require (sub.balance == 0) subscription_insufficient_balance
    rt.close key subscriber bank
