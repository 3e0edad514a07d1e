-- ===== src/Tests/Subscription.antt =====
-- Runs of the subscription handlers: a daily subscription at a thousand lamports.
use synapse_sap.Common.{
  ℕ, ◌≡◌, ◌+◌, ◌-◌, ◌*◌, ◌≤◌, ◌<◌, refl, none, ◌==◌, if◌then◌else◌, ◌≢◌, min, arith,
}
use synapse_sap.Common.Int.{pos, pos_part, ◌+ℤ◌, ◌-ℤ◌}
use synapse_sap.Errors.{ok}
use synapse_sap.Checked.{u64_max, checked_add_i64, saturating_sub_i64}
use synapse_sap.State.{Pubkey, Subscription, BillingInterval}
use synapse_sap.Runtime.{Bank, update, move_lamports, move_lamports_lem}
use synapse_sap.Seeds.{agent_seeds, subscription_seeds, at_address, at_bump}
use synapse_sap.Subscription.Billing.{
  elapsed_intervals, claim_of, book_claim, earned_amount, book_cancel, parse_interval,
}
use synapse_sap.Subscription.Handlers.{
  CreateSubscriptionAccounts, create_subscription, claim_interval, cancel_subscription,
}
use synapse_sap.Subscription.Life.{Books, Reach, created, IsBalanced, Reach-conserves}
use synapse_sap.Subscription.Ledger.{claim_interval_pays, cancel_subscription_splits}
use synapse_sap.Tests.Demo

abbrev key : Pubkey
key = Demo.derive (subscription_seeds Demo.agent_key Demo.depositor 3)

abbrev sub : Subscription
sub = record {
  bump = 255;
  agent = Demo.agent_key;
  subscriber = Demo.depositor;
  agent_wallet = Demo.wallet;
  sub_id = 3;
  price_per_interval = 1000;
  billing_interval = BillingInterval.daily;
  token_mint = none;
  token_decimals = 0;
  balance = 5500;
  total_paid = 0;
  intervals_paid = 0;
  started_at = pos 1000;
  last_claimed_at = pos 1000;
  cancelled_at = pos 0;
  next_due_at = pos 87400;
  created_at = pos 1000;
}

-- Two days and a bit after the start.
abbrev claimed : Subscription
claimed = record sub {
  balance = 3500;
  total_paid = 2000;
  intervals_paid = 2;
  last_claimed_at = pos 173800;
  next_due_at = pos 260200;
}

abbrev claimed_bank : Bank
claimed_bank = record (Demo.bank) {
  lamports = update (update Demo.bank.lamports key 999998000) Demo.wallet 1000002000;
}

claim-ok :
    claim_interval Demo.runtime Demo.wallet key sub (Demo.at 180000 90) Demo.bank
    ≡ ok (claimed, claimed_bank)
unfolding claim_interval elapsed_intervals claim_of book_claim move_lamports checked_add_i64
    saturating_sub_i64 ◌+ℤ◌ ◌-ℤ◌ at_bump agent_seeds subscription_seeds
claim-ok = refl

claim_interval_pays_example :
    (n : ℕ) × (0 < n)
    × (n ≤ pos_part (elapsed_intervals sub (Demo.at 180000 90)))
    × (3500 + n * 1000 ≡ 5500)
    × (2000 ≡ 0 + n * 1000)
    × ((k : Pubkey)
        → claimed_bank.lamports k + (if key == k then n * 1000 else 0)
          ≡ Demo.bank.lamports k + (if Demo.wallet == k then n * 1000 else 0))
claim_interval_pays_example =
    claim_interval_pays Demo.runtime Demo.wallet key sub (Demo.at 180000 90) Demo.bank claimed_bank
      claimed claim-ok

abbrev cancelled : Subscription
cancelled = record sub {
  cancelled_at = pos 180000;
  total_paid = 2000;
  intervals_paid = 2;
  balance = 0;
}

abbrev cancelled_bank : Bank
cancelled_bank = record (Demo.bank) {
  lamports = update (update claimed_bank.lamports key 999994500) Demo.depositor 1000003500;
}

cancel-ok :
    cancel_subscription Demo.runtime Demo.depositor Demo.wallet key sub
      (Demo.at 180000 90)
      Demo.bank
    ≡ ok (cancelled, cancelled_bank)
unfolding cancel_subscription elapsed_intervals earned_amount book_cancel move_lamports
    saturating_sub_i64 ◌-ℤ◌ at_bump agent_seeds subscription_seeds
cancel-ok = refl

cancel_subscription_splits_example :
    (pay : ℕ) × (pay ≡ earned_amount sub (elapsed_intervals sub (Demo.at 180000 90)))
    × (pay ≡ min (min (pos_part (elapsed_intervals sub (Demo.at 180000 90)) * 1000) u64_max) 5500)
    × (pay ≤ 5500)
    × (cancelled.balance ≡ 0)
    × ((k : Pubkey)
        → cancelled_bank.lamports k + (if key == k then 5500 else 0)
          ≡ Demo.bank.lamports k
            + ((if Demo.wallet == k then pay else 0)
                + (if Demo.depositor == k then 5500 - pay else 0)))
cancel_subscription_splits_example =
    cancel_subscription_splits Demo.runtime Demo.depositor Demo.wallet key sub (Demo.at 180000 90)
      Demo.bank cancelled_bank cancelled cancel-ok

abbrev create_accounts : CreateSubscriptionAccounts
create_accounts = record {
  subscriber = Demo.depositor;
  agent_key = Demo.agent_key;
  agent = Demo.agent;
  subscription_key = key;
}

abbrev opened_bank : Bank
opened_bank = record (Demo.bank) {
  lamports = update (update Demo.bank.lamports Demo.depositor 999994500) key 1000005500;
}

create-ok :
    create_subscription Demo.runtime create_accounts 3 1000 0 5500 Demo.clock Demo.bank
    ≡ ok (sub, opened_bank)
unfolding create_subscription at_address subscription_seeds agent_seeds parse_interval move_lamports
    checked_add_i64
create-ok = refl

-- The system program's transfer of the tests.
transfers :
    (from to amount : ℕ) (bank bank' : Bank)
    → from ≢ to
    → Demo.runtime.system_transfer from to amount bank ≡ ok bank'
    → bank'.lamports to ≡ bank.lamports to + amount
transfers from to amount bank bank' apart h =
    ground (arith, move_lamports_lem from to amount bank bank' to h)

-- Opened with 5500, claimed after two days, cancelled an hour later.
abbrev opened_books : Books
opened_books = record {
  sub = sub;
  bank = opened_bank;
  deposited = 5500;
  received = 0;
  refunded = 0;
}

abbrev claimed_books : Books
claimed_books = record {
  sub = claimed;
  bank = record opened_bank {
    lamports = update (update opened_bank.lamports key 1000003500) Demo.wallet 1000002000;
  };
  deposited = 5500;
  received = 2000;
  refunded = 0;
}

claim_opened-ok :
    claim_interval Demo.runtime Demo.wallet key sub (Demo.at 180000 90) opened_bank
    ≡ ok (claimed, claimed_books.bank)
unfolding claim_interval elapsed_intervals claim_of book_claim move_lamports checked_add_i64
    saturating_sub_i64 ◌+ℤ◌ ◌-ℤ◌ at_bump agent_seeds subscription_seeds
claim_opened-ok = refl

abbrev ended_books : Books
ended_books = record {
  sub = record claimed { cancelled_at = pos 183600; balance = 0 };
  bank = record (claimed_books.bank) {
    lamports = update (update claimed_books.bank.lamports key 1000000000) Demo.depositor 999998000;
  };
  deposited = 5500;
  received = 2000;
  refunded = 3500;
}

cancel_claimed-ok :
    cancel_subscription Demo.runtime Demo.depositor Demo.wallet key claimed
      (Demo.at 183600 95)
      claimed_books.bank
    ≡ ok (ended_books.sub, ended_books.bank)
unfolding cancel_subscription elapsed_intervals earned_amount book_cancel move_lamports
    saturating_sub_i64 ◌-ℤ◌ at_bump agent_seeds subscription_seeds
cancel_claimed-ok = refl

ended_reached : Reach Demo.runtime key Demo.wallet Demo.depositor ended_books
unfolding subscription_seeds agent_seeds
ended_reached =
    Reach.cancelled claimed_books (Demo.at 183600 95) ended_books.bank ended_books.sub
      (Reach.claimed opened_books (Demo.at 180000 90) claimed_books.bank claimed
        (created create_accounts 3 1000 0 5500 Demo.clock Demo.bank opened_bank sub refl refl refl
          create-ok)
        claim_opened-ok)
      cancel_claimed-ok

subscriber-apart : Demo.depositor ≢ key
unfolding subscription_seeds agent_seeds
subscriber-apart h = cc

wallet-apart : Demo.wallet ≢ key
unfolding subscription_seeds agent_seeds
wallet-apart h = cc

Reach-conserves_example : IsBalanced Demo.runtime key Demo.wallet Demo.depositor ended_books
Reach-conserves_example =
    Reach-conserves Demo.runtime key Demo.wallet Demo.depositor transfers subscriber-apart
      ended_books wallet-apart (omega arith) ended_reached (omega arith)
