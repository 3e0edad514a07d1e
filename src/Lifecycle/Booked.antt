-- ===== src/Lifecycle/Booked.antt =====
-- What a successful handler has booked: inversions of the handlers, which stay shut elsewhere.
use synapse_sap.Common.{◌==◌, leb, ℕ, ◌≡◌, true, false, arith}
use synapse_sap.Common.Int.{ltb_ℤ}
use synapse_sap.Errors.{
  ok, require, >>=-eq-ok, not_depositor, invalid_agent_wallet, pending_amount_mismatch,
}
use synapse_sap.State.{EscrowAccountV2, PendingSettlement, DisputeRecord, ReceiptBatch}
use synapse_sap.Runtime.{Runtime, Bank, Clock}
use synapse_sap.Escrow.Deposit.{DepositAccounts, deposit_escrow_v2, book_deposit}
use synapse_sap.Escrow.Finalize.{
  FinalizeAccounts, Finalized, finalize_settlement, finalize_constraints, book_finalized,
}
use synapse_sap.Escrow.Withdraw.{
  WithdrawAccounts, withdraw_escrow_v2, withdraw_amount, book_withdrawn,
}
use synapse_sap.Dispute.File.{FileAccounts, file_dispute}
use synapse_sap.Receipt.Submit.{InscribeAccounts, InscribeArgs, inscribe_receipt_batch}
use synapse_sap.Receipt.Resolve.{
  Resolution, ResolveAccounts, Resolved, determine_dispute_resolution, book_resolved,
  auto_resolve_dispute, resolve_constraints, return_bond, pay_resolution, book_resolved_stats,
  slash_if_lost,
}

pub deposit-booked :
    (rt : Runtime) (a : DepositAccounts) (nonce amount : ℕ) (clock : Clock) (bank bank' : Bank)
    (e : EscrowAccountV2)
    → deposit_escrow_v2 rt a nonce amount clock bank ≡ ok (e, bank')
    → book_deposit amount a.escrow ≡ ok e
unfolding deposit_escrow_v2
deposit-booked rt a nonce amount clock bank bank' e h = ground arith

pub withdraw-booked :
    (rt : Runtime) (a : WithdrawAccounts) (amount : ℕ) (bank bank' : Bank) (e : EscrowAccountV2)
    → withdraw_escrow_v2 rt a amount bank ≡ ok (e, bank')
    → (taken : ℕ) × (withdraw_amount a.escrow amount ≡ ok taken)
      × (book_withdrawn taken a.escrow ≡ ok e)
unfolding withdraw_escrow_v2
withdraw-booked rt a amount bank bank' e h = ground arith

pub finalize-booked :
    (rt : Runtime) (a : FinalizeAccounts) (clock : Clock) (bank : Bank) (out : Finalized)
    → finalize_settlement rt a clock bank ≡ ok out
    → (book_finalized a.pending_settlement clock a.escrow ≡ ok out.escrow)
      × (a.pending_settlement.is_finalized ≡ false)
      × (out.pending_settlement.is_finalized ≡ true)
unfolding finalize_settlement finalize_constraints
finalize-booked rt a clock bank out h = ground arith

pub file-booked :
    (rt : Runtime) (a : FileAccounts) (evidence kind : ℕ) (clock : Clock) (bank bank' : Bank)
    (p : PendingSettlement) (d : DisputeRecord)
    → file_dispute rt a evidence kind clock bank ≡ ok (p, d, bank')
    → (a.pending_settlement.is_finalized ≡ false)
      × (p ≡ record (a.pending_settlement) { is_disputed = true })
unfolding file_dispute
file-booked rt a evidence kind clock bank bank' p d h = ground arith

pub inscribe-booked :
    (rt : Runtime) (a : InscribeAccounts) (args : InscribeArgs) (clock : Clock) (bank bank' : Bank)
    (e : EscrowAccountV2) (b : ReceiptBatch)
    → inscribe_receipt_batch rt a args clock bank ≡ ok (e, b, bank')
    → e ≡ record (a.escrow) { receipt_batch_count = e.receipt_batch_count }
unfolding inscribe_receipt_batch
inscribe-booked rt a args clock bank bank' e b h = ground arith

resolve_constraints-open :
    (rt : Runtime) (a : ResolveAccounts) {u : Unit {0}}
    → resolve_constraints rt a ≡ ok u
    → a.pending_settlement.is_finalized ≡ false
unfolding resolve_constraints
resolve_constraints-open rt a h = ground arith

return_bond-escrow :
    (rt : Runtime) (a : ResolveAccounts) (r : Resolution) (e e' : EscrowAccountV2)
    (bank bank' : Bank)
    → return_bond rt a r e bank ≡ ok (e', bank')
    → e' ≡ record e { dispute_bond_total = e'.dispute_bond_total }
unfolding return_bond
return_bond-escrow rt a r e e' bank bank' h = ground arith

-- The bonds aside, a resolution books the escrow by what was determined.
pub resolve-booked :
    (rt : Runtime) (a : ResolveAccounts) (clock : Clock) (bank : Bank) (out : Resolved)
    → auto_resolve_dispute rt a clock bank ≡ ok out
    → (r : Resolution) × (e : EscrowAccountV2) × (determine_dispute_resolution
          a.dispute.dispute_type a.dispute.proven_calls a.dispute.claimed_calls
          (ltb_ℤ a.dispute.proof_deadline clock.unix_timestamp)
          a.pending_settlement.amount
        ≡ ok r)
      × (book_resolved r a.dispute.proven_calls a.pending_settlement clock a.escrow ≡ ok e)
      × (out.escrow ≡ record e { dispute_bond_total = out.escrow.dispute_bond_total })
      × (a.pending_settlement.is_finalized ≡ false)
      × (out.pending_settlement.is_finalized ≡ true)
unfolding auto_resolve_dispute
resolve-booked rt a clock bank out h =
    let ps = a.pending_settlement in
    let d = a.dispute in
    let (_, constraints, h₁) = >>=-eq-ok (resolve_constraints rt a) _ h in
    let (_, _, h₂) = >>=-eq-ok (require (a.depositor == a.escrow.depositor) not_depositor) _ h₁ in
    let (_, _, h₃) =
      >>=-eq-ok (require (a.agent_wallet == a.escrow.agent_wallet) invalid_agent_wallet) _ h₂ in
    let (_, _, h₄) =
      >>=-eq-ok (require (leb ps.amount a.escrow.pending_amount) pending_amount_mismatch) _ h₃ in
    let (r, determined, h₅) =
      >>=-eq-ok
        (determine_dispute_resolution d.dispute_type d.proven_calls d.claimed_calls
          (ltb_ℤ d.proof_deadline clock.unix_timestamp) ps.amount)
        _ h₄ in
    let (bank₁, _, h₆) = >>=-eq-ok (pay_resolution rt a r bank) _ h₅ in
    let (e₁, booked, h₇) = >>=-eq-ok (book_resolved r d.proven_calls ps clock a.escrow) _ h₆ in
    let (stats, _, h₈) =
      >>=-eq-ok (book_resolved_stats r d.proven_calls ps clock a.agent_stats) _ h₇ in
    let (slashed, _, h₉) = >>=-eq-ok (slash_if_lost rt a r bank₁) _ h₈ in
    let (bonded, returned, h₁₀) = >>=-eq-ok (return_bond rt a r e₁ slashed.2) _ h₉ in
    let bond = return_bond-escrow rt a r e₁ bonded.0 slashed.2 bonded.1 returned in
    (
      r,
      e₁,
      determined,
      booked,
      ground (arith, bond),
      resolve_constraints-open rt a constraints,
      ground arith,
    )
