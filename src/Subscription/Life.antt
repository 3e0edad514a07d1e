-- ===== src/Subscription/Life.antt =====
-- A subscription over its life, with the lamports that its handlers move: what was deposited, and
-- what the wallet of the agent and the subscriber's account have really got from it.
use synapse_sap.Common.{ℕ, ◌+◌, ◌-◌, ◌≤◌, ◌≡◌, ◌≢◌, ltb, Bool-cases, inl, inr, arith}
use synapse_sap.Errors.{ok, Result-cases}
use synapse_sap.State.{Pubkey, Subscription}
use synapse_sap.Runtime.{Runtime, Bank, Clock}
use synapse_sap.Subscription.Billing.{book_cancel}
use synapse_sap.Subscription.Handlers.{
  CreateSubscriptionAccounts, create_subscription, fund_subscription, claim_interval,
  cancel_subscription,
}
use synapse_sap.Subscription.Ledger.{claim_interval_pays, cancel-booked, cancel_subscription_splits}

-- The lamports that an account has more of after a step.
abbrev pub gained : Bank → Bank → Pubkey → ℕ
gained before after key = after.lamports key - before.lamports key

-- The account with the bank, the deposits, and the lamports that the wallet and the subscriber have
-- gained in the steps of the handlers.
pub record Books : Type 0 where
  pub sub : Subscription
  pub bank : Bank
  pub deposited : ℕ
  pub received : ℕ
  pub refunded : ℕ

module _ (rt : Runtime) (key wallet subscriber : Pubkey) where
  -- The handlers run one after the other. In between, other transactions may do anything with the
  -- bank but take lamports from the subscription's account, which the program owns.
  pub data Reach : Books → Type 0 where
    created :
        (a : CreateSubscriptionAccounts) (sub_id price interval deposit : ℕ) (clock : Clock)
        (bank bank' : Bank) (sub : Subscription)
        → a.subscription_key ≡ key
        → a.agent.wallet ≡ wallet
        → a.subscriber ≡ subscriber
        → create_subscription rt a sub_id price interval deposit clock bank ≡ ok (sub, bank')
        → Reach
            (record { sub = sub; bank = bank'; deposited = deposit; received = 0; refunded = 0 })
    funded :
        (b : Books) (amount : ℕ) (bank' : Bank) (sub : Subscription)
        → Reach b
        → fund_subscription rt subscriber key b.sub amount b.bank ≡ ok (sub, bank')
        → Reach (record b { sub = sub; bank = bank'; deposited = b.deposited + amount })
    claimed :
        (b : Books) (clock : Clock) (bank' : Bank) (sub : Subscription)
        → Reach b
        → claim_interval rt wallet key b.sub clock b.bank ≡ ok (sub, bank')
        → Reach (record b {
          sub = sub;
          bank = bank';
          received = b.received + gained b.bank bank' wallet;
        })
    cancelled :
        (b : Books) (clock : Clock) (bank' : Bank) (sub : Subscription)
        → Reach b
        → cancel_subscription rt subscriber wallet key b.sub clock b.bank ≡ ok (sub, bank')
        → Reach (record b {
          sub = sub;
          bank = bank';
          received = b.received + gained b.bank bank' wallet;
          refunded = b.refunded + gained b.bank bank' subscriber;
        })
    elsewhere :
        (b : Books) (bank' : Bank)
        → Reach b
        → b.bank.lamports key ≤ bank'.lamports key
        → Reach (record b { bank = bank' })

  pub record IsBalanced (b : Books) : Type 0 where
    pub paid : b.received ≡ b.sub.total_paid
    pub conserved : b.sub.balance + b.received + b.refunded ≡ b.deposited
    pub held : b.sub.balance ≤ b.bank.lamports key

  -- `system_program::transfer` brings what it takes as an argument to another account.
  module _
      (transfers : (from to amount : ℕ) (bank bank' : Bank)
        → from ≢ to
        → rt.system_transfer from to amount bank ≡ ok bank'
        → bank'.lamports to ≡ bank.lamports to + amount)
      (own : subscriber ≢ key) where
    created-IsBalanced :
        (a : CreateSubscriptionAccounts) (sub_id price interval deposit : ℕ) (clock : Clock)
        (bank bank' : Bank) (sub : Subscription)
        → a.subscription_key ≡ key
        → a.subscriber ≡ subscriber
        → create_subscription rt a sub_id price interval deposit clock bank ≡ ok (sub, bank')
        → (sub.balance ≡ deposit) × (sub.total_paid ≡ 0) × (deposit ≤ bank'.lamports key)
    unfolding create_subscription
    created-IsBalanced a sub_id price interval deposit clock bank bank' sub k s h = (
      ground arith,
      ground arith,
      elim (Bool-cases (ltb 0 deposit)) [
        | inl some_deposit ↦ elim (Result-cases (rt.init a.subscriber a.subscription_key bank)) [
          | inl (bank₁, made) ↦
              let sent : rt.system_transfer subscriber key deposit bank₁ ≡ ok bank' =
                rw (← k, ← s) (ground arith) in
              omega (arith, transfers subscriber key deposit bank₁ bank' own sent)
          | inr (e, failed) ↦ ground arith
        ]
        | inr nothing ↦ ground arith
      ],
    )

    funded-balances :
        (amount : ℕ) (sub sub' : Subscription) (bank bank' : Bank)
        → fund_subscription rt subscriber key sub amount bank ≡ ok (sub', bank')
        → (sub'.balance ≡ sub.balance + amount)
          × (sub'.total_paid ≡ sub.total_paid)
          × (bank'.lamports key ≡ bank.lamports key + amount)
    unfolding fund_subscription
    funded-balances amount sub sub' bank bank' h =
        (ground arith, ground arith, transfers subscriber key amount bank bank' own (ground arith))

    claimed-balances :
        (clock : Clock) (sub sub' : Subscription) (bank bank' : Bank)
        → wallet ≢ key
        → claim_interval rt wallet key sub clock bank ≡ ok (sub', bank')
        → (sub'.total_paid ≡ sub.total_paid + gained bank bank' wallet)
          × (sub'.balance + gained bank bank' wallet ≡ sub.balance)
          × (bank'.lamports key + gained bank bank' wallet ≡ bank.lamports key)
    claimed-balances clock sub sub' bank bank' apart h =
        let (n, _, _, left, paid, moved) =
          claim_interval_pays rt wallet key sub clock bank bank' sub' h in
        (
          ground (arith, paid, moved wallet),
          ground (arith, left, moved wallet),
          ground (arith, moved wallet, moved key),
        )

    -- All of the balance goes, and each lamport of it to one of the two.
    cancelled-balances :
        (clock : Clock) (sub sub' : Subscription) (bank bank' : Bank)
        → wallet ≢ key
        → wallet ≢ subscriber
        → sub.balance + sub.total_paid ≤ 18446744073709551615
        → cancel_subscription rt subscriber wallet key sub clock bank ≡ ok (sub', bank')
        → (sub'.balance ≡ 0)
          × (sub'.total_paid ≡ sub.total_paid + gained bank bank' wallet)
          × (gained bank bank' wallet + gained bank bank' subscriber ≡ sub.balance)
    unfolding book_cancel
    cancelled-balances clock sub sub' bank bank' apart others fits h =
        let (pay, e, _, within, empty, moved) =
          cancel_subscription_splits rt subscriber wallet key sub clock bank bank' sub' h in
        let (between, paid, back, booked) =
          cancel-booked rt subscriber wallet key sub clock bank bank' sub' h in
        let total : sub'.total_paid ≡ sub.total_paid + pay = ground (arith, booked, e, within) in
        (
          empty,
          ground (arith, total, moved wallet),
          ground (arith, within, moved wallet, moved subscriber),
        )

    -- In every state that a subscription comes to by deposits, claims and its cancellation, between
    -- three different accounts, as long as the deposits are a u64 in all and other transactions take
    -- no lamports from the subscription's account: the total that is recorded as paid is what the
    -- agent's wallet got in lamports; the deposits are what is left as the balance, what the wallet
    -- got, and what the subscriber got back; and the account holds the balance.
    pub Reach-conserves :
        (b : Books)
        → wallet ≢ key
        → wallet ≢ subscriber
        → Reach b
        → b.deposited ≤ 18446744073709551615
        → IsBalanced b
    Reach-conserves b apart others
          (created a sub_id price interval deposit clock bank bank' sub k w s h) fits =
        let (left, paid, held) =
          created-IsBalanced a sub_id price interval deposit clock bank bank' sub k s h in
        record {
          paid = omega (arith, paid);
          conserved = omega (arith, left);
          held = omega (arith, left, held);
        }
    Reach-conserves b apart others (funded b₀ amount bank' sub r h) fits =
        let i = Reach-conserves b₀ apart others r (omega arith) in
        let (left, paid, held) = funded-balances amount b₀.sub sub b₀.bank bank' h in
        record {
          paid = omega (arith, i.paid, paid);
          conserved = omega (arith, i.conserved, left);
          held = omega (arith, i.held, left, held);
        }
    Reach-conserves b apart others (claimed b₀ clock bank' sub r h) fits =
        let i = Reach-conserves b₀ apart others r fits in
        let (paid, left, held) = claimed-balances clock b₀.sub sub b₀.bank bank' apart h in
        record {
          paid = omega (arith, i.paid, paid);
          conserved = omega (arith, i.conserved, left);
          held = omega (arith, i.held, left, held);
        }
    Reach-conserves b apart others (cancelled b₀ clock bank' sub r h) fits =
        let i = Reach-conserves b₀ apart others r fits in
        let (left, paid, split) =
          cancelled-balances clock b₀.sub sub b₀.bank bank' apart others
            (omega (arith, i.paid, i.conserved)) h in
        record {
          paid = omega (arith, i.paid, paid);
          conserved = omega (arith, i.conserved, left, split);
          held = omega (arith, left);
        }
    Reach-conserves b apart others (elsewhere b₀ bank' r kept) fits =
        let i = Reach-conserves b₀ apart others r fits in
        record { paid = i.paid; conserved = i.conserved; held = omega (arith, i.held) }
