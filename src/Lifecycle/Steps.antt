-- ===== src/Lifecycle/Steps.antt =====
-- Every step of an escrow's life keeps its counters in agreement with its open settlements.
use synapse_sap.Common.{ℕ, ◌≤◌, ◌≡◌, refl, true, false, some, [], get_elem?, arith}
use synapse_sap.Errors.{ok}
use synapse_sap.Checked.{u64_max}
use synapse_sap.State.{EscrowAccountV2, PendingSettlement, AgentStats}
use synapse_sap.Runtime.{Runtime, Bank, Clock}
use synapse_sap.Escrow.Create.{CreateAccounts, CreateArgs, create_escrow_v2}
use synapse_sap.Escrow.Settle.{SettleAccounts, Settled, Quote, quote_settlement}
use synapse_sap.Escrow.Accounting.{Booking, at_once, later, settle_calls_v2-booked}
use synapse_sap.Receipt.Outcome.{resolution_conserves}
use synapse_sap.Lifecycle.{
  World, set, add_pending, Step, deposited, withdrawn, settled, finalized, disputed, resolved,
  inscribed, Reach, created, next,
}
use synapse_sap.Lifecycle.OpenSums.{open_sum-nil, open_sum-kept}
use synapse_sap.Lifecycle.Booked.{
  deposit-booked, withdraw-booked, finalize-booked, file-booked, inscribe-booked, resolve-booked,
}
use synapse_sap.Lifecycle.Invariant.{
  IsConsistent, deposited-kept, withdrawn-kept, co_signed-kept, pending-kept, finalized-kept,
  resolved-kept,
}

settled-kept :
    (w : World) (a : SettleAccounts) (q : Quote) (calls : ℕ) (clock : Clock) (out : Settled)
    → a.escrow ≡ w.escrow
    → IsConsistent w
    → quote_settlement a.escrow calls clock ≡ ok q
    → Booking a q calls clock out
    → IsConsistent (record { escrow = out.escrow; pendings = add_pending out.pending w.pendings })
settled-kept w a q calls clock out same c hq (at_once booked unlisted) =
    rw unlisted (co_signed-kept w a.escrow out.escrow same c q calls clock hq booked)
settled-kept w a q calls clock out same c hq (later key hash bump slot booked listed) =
    rw listed (pending-kept w a.escrow out.escrow same c q calls clock _ hq booked refl refl refl)

disputed-kept :
    (w : World) (i : ℕ) (p : PendingSettlement)
    → IsConsistent w
    → get_elem? w.pendings i ≡ some p
    → p.is_finalized ≡ false
    → IsConsistent (record w { pendings = set w.pendings i (record p { is_disputed = true }) })
disputed-kept w i p c here f =
    let p' : PendingSettlement = record p { is_disputed = true } in
    record {
      sound = c.sound;
      agrees = ground (
        arith,
        c.agrees,
        open_sum-kept (λ x. x.amount) w.pendings i p p' here f f refl,
        open_sum-kept (λ x. x.calls_to_settle) w.pendings i p p' here f f refl,
        open_sum-kept (λ x. 1) w.pendings i p p' here f f refl,
      );
    }

created-kept :
    (rt : Runtime) (a : CreateAccounts) (args : CreateArgs) (clock : Clock) (bank bank' : Bank)
    (e : EscrowAccountV2) (stats : AgentStats)
    → args.initial_deposit ≤ u64_max
    → create_escrow_v2 rt a args clock bank ≡ ok (e, stats, bank')
    → IsConsistent (record { escrow = e; pendings = [] })
unfolding create_escrow_v2
created-kept rt a args clock bank bank' e stats fit h = ground (
  arith,
  open_sum-nil (λ x. x.amount),
  open_sum-nil (λ x. x.calls_to_settle),
  open_sum-nil (λ x. 1),
)

-- Every successful handler, whatever it is called with, keeps the invariant.
pub Step-IsConsistent :
    (rt : Runtime) (w w' : World) → Step rt w w' → IsConsistent w → IsConsistent w'
Step-IsConsistent rt w w' (deposited a nonce amount clock bank bank' e same h to) c = rw to (
    deposited-kept w a.escrow e same c amount
      (deposit-booked rt a nonce amount clock bank bank' e h))
Step-IsConsistent rt w w' (withdrawn a amount bank bank' e same h to) c =
    let (taken, hq, booked) = withdraw-booked rt a amount bank bank' e h in
    rw to (withdrawn-kept w a.escrow e same c amount taken hq booked)
Step-IsConsistent rt w w' (settled a nonce calls hash clock bank out same h to) c =
    let (q, hq, booking) = settle_calls_v2-booked rt a nonce calls hash clock bank h in
    rw to (settled-kept w a q calls clock out same c hq booking)
Step-IsConsistent rt w w' (finalized i a clock bank out same here h to) c =
    let (booked, was_open, final) = finalize-booked rt a clock bank out h in
    rw to (
      finalized-kept w a.escrow out.escrow same c i a.pending_settlement out.pending_settlement
        clock here was_open final booked)
Step-IsConsistent rt w w' (disputed i a evidence kind clock bank bank' p d same here h to) c =
    let (was_open, marked) = file-booked rt a evidence kind clock bank bank' p d h in
    rw (to, marked) (disputed-kept w i a.pending_settlement c here was_open)
Step-IsConsistent rt w w' (resolved i a clock bank out same here h to) c =
    let (r, e, determined, booked, escrow, was_open, final) =
      resolve-booked rt a clock bank out h in
    let shares = resolution_conserves _ _ _ _ _ determined in
    rw (to, escrow)
      (resolved-kept w a.escrow e same c i a.pending_settlement out.pending_settlement clock r
        a.dispute.proven_calls out.escrow.dispute_bond_total here was_open final
        (omega (arith, shares.0)) booked)
Step-IsConsistent rt w w' (inscribed a args clock bank bank' e b same h to) c =
    let booked = inscribe-booked rt a args clock bank bank' e b h in ground (arith, booked)

-- In every state that a created escrow comes to, the locked amount and calls are those of its open
-- pending settlements, their number is the counter, the balance covers them, deposits cover what
-- was settled and what is left, and a cap on the calls covers the settled and the pending ones.
pub Reach-IsConsistent : (rt : Runtime) (w : World) → Reach rt w → IsConsistent w
Reach-IsConsistent rt w (created a args clock bank bank' e stats w₀ fit h start) =
    rw start (created-kept rt a args clock bank bank' e stats fit h)
Reach-IsConsistent rt w (next v w₀ r s) = Step-IsConsistent rt v w₀ s (Reach-IsConsistent rt v r)
