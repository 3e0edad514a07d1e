-- ===== src/Escrow/Accounting.antt =====
-- What the counters of an escrow say of its money: the invariant of the account, and that each
-- handler keeps it.
use synapse_sap.Common.{ℕ, ◌+◌, ◌≤◌, ◌<◌, ◌≡◌, none, some, arith}
use synapse_sap.Errors.{ok, >>=-eq-ok}
use synapse_sap.Checked.{u64_max}
use synapse_sap.State.{Pubkey, SettlementSecurity, EscrowAccountV2, PendingSettlement}
use synapse_sap.Runtime.{Runtime, Bank, Clock}
use synapse_sap.Seeds.{pending_seeds}
use synapse_sap.Escrow.Deposit.{book_deposit}
use synapse_sap.Escrow.Settle.{
  SettleAccounts, Settled, Quote, quote_settlement, book_co_signed, book_pending, settle_calls_v2,
  settle_co_signed, settle_dispute_window, settle_by_mode, settle_constraints, new_pending,
}
use synapse_sap.Escrow.Finalize.{book_finalized}
use synapse_sap.Escrow.Withdraw.{withdraw_amount, book_withdrawn}
use synapse_sap.Receipt.Resolve.{Resolution, book_resolved}

-- Pending settlements are covered by the balance; what was settled and what is left came from
-- deposits; and an escrow with a cap on its calls has not promised more of them.
pub record IsSound (e : EscrowAccountV2) : Type 0 where
  pub covered : e.pending_amount ≤ e.balance
  pub funded : e.balance + e.total_settled ≤ e.total_deposited
  pub bounded : e.total_deposited ≤ u64_max
  pub capped : 0 < e.max_calls → e.total_calls_settled + e.pending_calls ≤ e.max_calls

pub book_deposit-IsSound :
    (amount : ℕ) (e : EscrowAccountV2) {e' : EscrowAccountV2}
    → IsSound e
    → book_deposit amount e ≡ ok e'
    → IsSound e'
unfolding book_deposit
book_deposit-IsSound amount e s h = ground arith

pub book_withdrawn-IsSound :
    (amount taken : ℕ) (e : EscrowAccountV2) {e' : EscrowAccountV2}
    → IsSound e
    → withdraw_amount e amount ≡ ok taken
    → book_withdrawn taken e ≡ ok e'
    → IsSound e'
unfolding withdraw_amount book_withdrawn
book_withdrawn-IsSound amount taken e s q h = ground arith

-- A quote is covered by the part of the balance that is not locked, and keeps to the cap.
pub quote_covered :
    (e : EscrowAccountV2) (calls : ℕ) (clock : Clock) {q : Quote}
    → quote_settlement e calls clock ≡ ok q
    → (e.pending_amount + q.amount + q.fee ≤ e.balance)
      × (0 < e.max_calls → e.total_calls_settled + e.pending_calls + calls ≤ e.max_calls)
unfolding quote_settlement
quote_covered e calls clock h = ground arith

pub book_co_signed-IsSound :
    (q : Quote) (calls : ℕ) (clock : Clock) (e : EscrowAccountV2) {e' : EscrowAccountV2}
    → IsSound e
    → quote_settlement e calls clock ≡ ok q
    → book_co_signed q calls clock e ≡ ok e'
    → IsSound e'
unfolding book_co_signed
book_co_signed-IsSound q calls clock e s hq h = ground (arith, quote_covered e calls clock hq)

pub book_pending-IsSound :
    (q : Quote) (calls : ℕ) (clock : Clock) (e : EscrowAccountV2) {e' : EscrowAccountV2}
    → IsSound e
    → quote_settlement e calls clock ≡ ok q
    → book_pending q calls e ≡ ok e'
    → IsSound e'
unfolding book_pending
book_pending-IsSound q calls clock e s hq h = ground (arith, quote_covered e calls clock hq)

pub book_finalized-IsSound :
    (ps : PendingSettlement) (clock : Clock) (e : EscrowAccountV2) {e' : EscrowAccountV2}
    → IsSound e
    → book_finalized ps clock e ≡ ok e'
    → IsSound e'
unfolding book_finalized
book_finalized-IsSound ps clock e s h = ground arith

pub book_resolved-IsSound :
    (r : Resolution) (proven : ℕ) (ps : PendingSettlement) (clock : Clock) (e : EscrowAccountV2)
    {e' : EscrowAccountV2}
    → IsSound e
    → r.agent_amount ≤ ps.amount
    → book_resolved r proven ps clock e ≡ ok e'
    → IsSound e'
unfolding book_resolved
book_resolved-IsSound r proven ps clock e s le h = ground arith

-- How a settlement is booked: at once, or with a new pending settlement for the quoted amount.
pub data Booking (accounts : SettleAccounts) (q : Quote) (calls : ℕ) (clock : Clock) (out : Settled)
    : Type 0 where
  at_once :
      book_co_signed q calls clock accounts.escrow ≡ ok out.escrow
      → out.pending ≡ none
      → Booking accounts q calls clock out
  later :
      (key : Pubkey) (hash bump slot : ℕ)
      → book_pending q calls accounts.escrow ≡ ok out.escrow
      → out.pending ≡ some (key, new_pending accounts q calls hash clock bump slot)
      → Booking accounts q calls clock out

module _ (rt : Runtime) (accounts : SettleAccounts) (q : Quote) (calls hash : ℕ) (clock : Clock)
    (bank : Bank) {out : Settled} where
  settle_co_signed-booked :
      settle_co_signed rt accounts q calls clock bank ≡ ok out
      → (book_co_signed q calls clock accounts.escrow ≡ ok out.escrow) × (out.pending ≡ none)
  unfolding settle_co_signed
  settle_co_signed-booked h = ground arith

  settle_dispute_window-booked :
      settle_dispute_window rt accounts q calls hash clock bank ≡ ok out
      → (slot : ℕ) × (book_pending q calls accounts.escrow ≡ ok out.escrow)
        × (out.pending
            ≡ some (
              (rt.find_program_address
                  (pending_seeds accounts.escrow_key accounts.escrow.settlement_index)).0,
              new_pending accounts q calls hash clock
                  (rt.find_program_address
                    (pending_seeds accounts.escrow_key accounts.escrow.settlement_index)).1
                  slot,
            ))
  unfolding settle_dispute_window
  settle_dispute_window-booked h =
      (clock.slot + accounts.escrow.dispute_window_slots, ground arith, ground arith)

  settle_by_mode-booked :
      (mode : SettlementSecurity)
      → settle_by_mode rt mode accounts q calls hash clock bank ≡ ok out
      → Booking accounts q calls clock out
  unfolding settle_by_mode
  settle_by_mode-booked SettlementSecurity.self_report h = absurd (cc)
  settle_by_mode-booked SettlementSecurity.co_signed h =
      let (booked, none_pending) = settle_co_signed-booked h in at_once booked none_pending
  settle_by_mode-booked SettlementSecurity.dispute_window h =
      let (slot, booked, made) = settle_dispute_window-booked h in later _ hash _ slot booked made

-- A settlement is booked from a quote, at once or as pending.
pub settle_calls_v2-booked :
    (rt : Runtime) (accounts : SettleAccounts) (nonce calls hash : ℕ) (clock : Clock) (bank : Bank)
    {out : Settled}
    → settle_calls_v2 rt accounts nonce calls hash clock bank ≡ ok out
    → (q : Quote) × (quote_settlement accounts.escrow calls clock ≡ ok q)
      × Booking accounts q calls clock out
unfolding settle_calls_v2
settle_calls_v2-booked rt accounts nonce calls hash clock bank h =
    let (_, _, h₁) = >>=-eq-ok (settle_constraints rt accounts nonce) _ h in
    let (q, hq, h₂) = >>=-eq-ok (quote_settlement accounts.escrow calls clock) _ h₁ in
    (
      q,
      hq,
      settle_by_mode-booked rt accounts q calls hash clock bank accounts.escrow.settlement_security
          h₂,
    )
