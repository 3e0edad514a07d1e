-- ===== src/Lifecycle/Invariant.antt =====
-- The invariant of an escrow's life: its counters agree with its open pending settlements.
use synapse_sap.Common.{ℕ, ◌+◌, ◌-◌, ◌≤◌, ◌≡◌, true, false, some, List, ◌∷◌, get_elem?, arith}
use synapse_sap.Errors.{ok}
use synapse_sap.State.{EscrowAccountV2, PendingSettlement}
use synapse_sap.Runtime.{Clock}
use synapse_sap.Escrow.Deposit.{book_deposit}
use synapse_sap.Escrow.Settle.{Quote, quote_settlement, book_co_signed, book_pending}
use synapse_sap.Escrow.Finalize.{book_finalized}
use synapse_sap.Escrow.Withdraw.{withdraw_amount, book_withdrawn}
use synapse_sap.Escrow.Accounting.{
  IsSound, book_deposit-IsSound, book_withdrawn-IsSound, book_co_signed-IsSound,
  book_pending-IsSound, book_finalized-IsSound, book_resolved-IsSound,
}
use synapse_sap.Receipt.Resolve.{Resolution, book_resolved}
use synapse_sap.Lifecycle.{World, set}
use synapse_sap.Lifecycle.OpenSums.{open_sum, open_sum-cons, open_sum-finalized}

abbrev pub open_amount : List PendingSettlement → ℕ
open_amount = open_sum (λ p. p.amount)

abbrev pub open_calls : List PendingSettlement → ℕ
open_calls = open_sum (λ p. p.calls_to_settle)

abbrev pub open_count : List PendingSettlement → ℕ
open_count = open_sum (λ p. 1)

-- The counters of the open settlements, of an escrow and a list.
pub record Agrees (e : EscrowAccountV2) (ps : List PendingSettlement) : Type 0 where
  pub amounts : e.pending_amount ≡ open_amount ps
  pub calls : e.pending_calls ≡ open_calls ps
  pub count : e.pending_settlement_count ≡ open_count ps

pub record IsConsistent (w : World) : Type 0 where
  pub sound : IsSound w.escrow
  pub agrees : Agrees w.escrow w.pendings

book_pending-Agrees :
    (q : Quote) (calls : ℕ) (e e' : EscrowAccountV2) (p : PendingSettlement)
    (ps : List PendingSettlement)
    → Agrees e ps
    → book_pending q calls e ≡ ok e'
    → p.is_finalized ≡ false
    → p.amount ≡ q.amount
    → p.calls_to_settle ≡ calls
    → Agrees e' (p ∷ ps)
unfolding book_pending
book_pending-Agrees q calls e e' p ps a h f am cs = ground (
  arith,
  open_sum-cons (λ x. x.amount) p ps f,
  open_sum-cons (λ x. x.calls_to_settle) p ps f,
  open_sum-cons (λ x. 1) p ps f,
)

-- A settlement that becomes final leaves all three counters.
module _ (e e' : EscrowAccountV2) (ps : List PendingSettlement) (i : ℕ) (p p' : PendingSettlement)
    (agrees : Agrees e ps) (here : get_elem? ps i ≡ some p) (was_open : p.is_finalized ≡ false)
    (final : p'.is_finalized ≡ true) where
  release-Agrees :
      e'.pending_amount + p.amount ≡ e.pending_amount
      → e'.pending_calls + p.calls_to_settle ≡ e.pending_calls
      → e'.pending_settlement_count ≡ e.pending_settlement_count - 1
      → Agrees e' (set ps i p')
  release-Agrees am cs ct = ground (
    arith,
    open_sum-finalized (λ x. x.amount) ps i p p' here was_open final,
    open_sum-finalized (λ x. x.calls_to_settle) ps i p p' here was_open final,
    open_sum-finalized (λ x. 1) ps i p p' here was_open final,
  )

module _ (w : World) (e : EscrowAccountV2) (e' : EscrowAccountV2) (same : e ≡ w.escrow)
    (c : IsConsistent w) where
  pub deposited-kept :
      (amount : ℕ) → book_deposit amount e ≡ ok e' → IsConsistent (record w { escrow = e' })
  unfolding book_deposit
  deposited-kept amount h = record {
    sound = book_deposit-IsSound amount e (rw same c.sound) h;
    agrees = ground arith;
  }

  pub withdrawn-kept :
      (amount taken : ℕ)
      → withdraw_amount e amount ≡ ok taken
      → book_withdrawn taken e ≡ ok e'
      → IsConsistent (record w { escrow = e' })
  unfolding book_withdrawn
  withdrawn-kept amount taken q h = record {
    sound = book_withdrawn-IsSound amount taken e (rw same c.sound) q h;
    agrees = ground arith;
  }

  pub co_signed-kept :
      (q : Quote) (calls : ℕ) (clock : Clock)
      → quote_settlement e calls clock ≡ ok q
      → book_co_signed q calls clock e ≡ ok e'
      → IsConsistent (record w { escrow = e' })
  unfolding book_co_signed
  co_signed-kept q calls clock hq h = record {
    sound = book_co_signed-IsSound q calls clock e (rw same c.sound) hq h;
    agrees = ground arith;
  }

  pub pending-kept :
      (q : Quote) (calls : ℕ) (clock : Clock) (p : PendingSettlement)
      → quote_settlement e calls clock ≡ ok q
      → book_pending q calls e ≡ ok e'
      → p.is_finalized ≡ false
      → p.amount ≡ q.amount
      → p.calls_to_settle ≡ calls
      → IsConsistent (record { escrow = e'; pendings = p ∷ w.pendings })
  pending-kept q calls clock p hq h f am cs = record {
    sound = book_pending-IsSound q calls clock e (rw same c.sound) hq h;
    agrees = book_pending-Agrees q calls e e' p w.pendings (rw same c.agrees) h f am cs;
  }

  pub finalized-kept :
      (i : ℕ) (p p' : PendingSettlement) (clock : Clock)
      → get_elem? w.pendings i ≡ some p
      → p.is_finalized ≡ false
      → p'.is_finalized ≡ true
      → book_finalized p clock e ≡ ok e'
      → IsConsistent (record { escrow = e'; pendings = set w.pendings i p' })
  unfolding book_finalized
  finalized-kept i p p' clock here f f' h = record {
    sound = book_finalized-IsSound p clock e (rw same c.sound) h;
    agrees =
        release-Agrees e e' w.pendings i p p' (rw same c.agrees) here f f' (ground arith)
          (ground arith) (ground arith);
  }

  pub resolved-kept :
      (i : ℕ) (p p' : PendingSettlement) (clock : Clock) (r : Resolution) (proven bonds : ℕ)
      → get_elem? w.pendings i ≡ some p
      → p.is_finalized ≡ false
      → p'.is_finalized ≡ true
      → r.agent_amount ≤ p.amount
      → book_resolved r proven p clock e ≡ ok e'
      → IsConsistent (record {
        escrow = record e' { dispute_bond_total = bonds };
        pendings = set w.pendings i p';
      })
  unfolding book_resolved
  resolved-kept i p p' clock r proven bonds here f f' le h =
      let s = book_resolved-IsSound r proven p clock e (rw same c.sound) le h in
      record {
        sound = ground arith;
        agrees =
            release-Agrees e (record e' { dispute_bond_total = bonds }) w.pendings i p p'
              (rw same c.agrees) here f f' (ground arith) (ground arith) (ground arith);
      }
