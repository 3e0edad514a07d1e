-- ===== src/Lifecycle/Payable.antt =====
-- Money in a pending settlement is never stuck: in every state that an escrow comes to, an open
-- settlement can be finalised as soon as its window has passed.
use synapse_sap.Common.{
  ℕ, ◌+◌, ◌-◌, ◌≤◌, ◌≡◌, ap, ◌∙◌, true, false, none, some, get_elem?, arith, le→leb,
}
use synapse_sap.Errors.{ok}
use synapse_sap.Checked.{u64_max}
use synapse_sap.State.{EscrowAccountV2, PendingSettlement, AgentStats, DisputeOutcome}
use synapse_sap.Runtime.{Runtime, Bank, Clock, move_lamports-ok}
use synapse_sap.Escrow.Settle.{count_calls}
use synapse_sap.Escrow.Finalize.{
  FinalizeAccounts, Finalized, finalize_settlement, finalize_constraints, pay_finalized,
  book_finalized,
}
use synapse_sap.Lifecycle.{World, Reach}
use synapse_sap.Lifecycle.OpenSums.{le-open_sum}
use synapse_sap.Lifecycle.Invariant.{IsConsistent}
use synapse_sap.Lifecycle.Steps.{Reach-IsConsistent}

-- The sums of the escrow never block a settlement that is open in a consistent state.
book_finalized-ok :
    (w : World) (i : ℕ) (p : PendingSettlement) (clock : Clock)
    → IsConsistent w
    → get_elem? w.pendings i ≡ some p
    → p.is_finalized ≡ false
    → w.escrow.total_calls_settled + p.calls_to_settle ≤ u64_max
    → (e : EscrowAccountV2) × (book_finalized p clock w.escrow ≡ ok e)
unfolding book_finalized
book_finalized-ok w i p clock c here was_open fit =
    let amounts = le-open_sum (λ x. x.amount) w.pendings i p here was_open in
    let calls = le-open_sum (λ x. x.calls_to_settle) w.pendings i p here was_open in
    (
      record (w.escrow) {
        balance = w.escrow.balance - p.amount;
        total_settled = w.escrow.total_settled + p.amount;
        total_calls_settled = w.escrow.total_calls_settled + p.calls_to_settle;
        pending_amount = w.escrow.pending_amount - p.amount;
        pending_calls = w.escrow.pending_calls - p.calls_to_settle;
        last_settled_at = clock.unix_timestamp;
        pending_settlement_count = w.escrow.pending_settlement_count - 1;
      },
      ground (arith, amounts, calls, c.sound, c.agrees),
    )

pay_finalized-ok :
    (rt : Runtime) (a : FinalizeAccounts) (bank : Bank)
    → a.escrow.token_mint ≡ none
    → a.pending_settlement.amount ≤ bank.lamports a.escrow_key
    → bank.lamports a.agent_wallet + a.pending_settlement.amount ≤ u64_max
    → (bank' : Bank) × (pay_finalized rt a bank ≡ ok bank')
unfolding pay_finalized
pay_finalized-ok rt a bank native held room =
    let (bank', moved) =
      move_lamports-ok a.escrow_key a.agent_wallet a.pending_settlement.amount bank held room in
    (bank', ground (arith, moved))

count_calls-ok :
    (calls : ℕ) (clock : Clock) (stats : AgentStats)
    → stats.total_calls_served + calls ≤ u64_max
    → (stats' : AgentStats) × (count_calls calls clock stats ≡ ok stats')
unfolding count_calls
count_calls-ok calls clock stats fit = (
  record stats {
    total_calls_served = stats.total_calls_served + calls;
    updated_at = clock.unix_timestamp;
  },
  ground arith,
)

-- In every state that a native escrow comes to, the finalisation of an open settlement succeeds, if
-- its accounts pass the constraints, its window has passed, the wallet is the one that it names,
-- the escrow's account still holds the recorded balance, and the wallet's lamports and the counters
-- of calls do not overflow.
pub finalize_settlement_succeeds :
    (rt : Runtime) (w : World) (i : ℕ) (a : FinalizeAccounts) (clock : Clock) (bank : Bank)
    → Reach rt w
    → a.escrow ≡ w.escrow
    → get_elem? w.pendings i ≡ some a.pending_settlement
    → w.escrow.token_mint ≡ none
    → finalize_constraints rt a ≡ ok tt
    → a.pending_settlement.is_finalized ≡ false
    → a.pending_settlement.release_slot ≤ clock.slot
    → a.agent_wallet ≡ a.pending_settlement.agent_wallet
    → w.escrow.balance ≤ bank.lamports a.escrow_key
    → bank.lamports a.agent_wallet + a.pending_settlement.amount ≤ u64_max
    → w.escrow.total_calls_settled + a.pending_settlement.calls_to_settle ≤ u64_max
    → a.agent_stats.total_calls_served + a.pending_settlement.calls_to_settle ≤ u64_max
    → (out : Finalized) × (finalize_settlement rt a clock bank ≡ ok out)
unfolding finalize_settlement
finalize_settlement_succeeds rt w i a clock bank reach same here native cons was_open due wallet
      held fits_wallet fits_calls fits_stats =
    let ps = a.pending_settlement in
    let c = Reach-IsConsistent rt w reach in
    let amounts = le-open_sum (λ x. x.amount) w.pendings i ps here was_open in
    let covered : ps.amount ≤ bank.lamports a.escrow_key =
      omega (arith, amounts, c.sound, c.agrees, held) in
    let (bank', paid) =
      pay_finalized-ok rt a bank (ap (λ (e : EscrowAccountV2). e.token_mint) same ∙ native) covered
        fits_wallet in
    let (e, booked) = book_finalized-ok w i ps clock c here was_open fits_calls in
    let booked' : book_finalized ps clock a.escrow ≡ ok e = rw same booked in
    let (stats, counted) = count_calls-ok ps.calls_to_settle clock a.agent_stats fits_stats in
    (
      record {
        escrow = e;
        pending_settlement = record ps {
          is_finalized = true;
          outcome = DisputeOutcome.auto_released;
        };
        agent_stats = stats;
        bank = bank';
      },
      rw (cons, le→leb _ _ due, paid, booked', counted) (ground (arith, wallet)),
    )
