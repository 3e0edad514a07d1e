-- ===== src/Lifecycle/Once.antt =====
-- A pending settlement is paid out once.
use synapse_sap.Common.{ℕ, ◌≡◌, ◌≢◌, ap, ◌∙◌, true}
use synapse_sap.Errors.{ok}
use synapse_sap.State.{PendingSettlement, DisputeRecord}
use synapse_sap.Runtime.{Runtime, Bank, Clock}
use synapse_sap.Escrow.Finalize.{FinalizeAccounts, Finalized, finalize_settlement}
use synapse_sap.Dispute.File.{FileAccounts, file_dispute}
use synapse_sap.Receipt.Resolve.{ResolveAccounts, Resolved, auto_resolve_dispute}
use synapse_sap.Lifecycle.Booked.{finalize-booked, file-booked, resolve-booked}

-- A pending settlement as one of the two handlers that pay it out has left it.
pub data IsPaidOut (rt : Runtime) (p : PendingSettlement) : Type 0 where
  by_finalization :
      (a : FinalizeAccounts) (clock : Clock) (bank : Bank) (out : Finalized)
      → finalize_settlement rt a clock bank ≡ ok out
      → p ≡ out.pending_settlement
      → IsPaidOut rt p
  by_resolution :
      (a : ResolveAccounts) (clock : Clock) (bank : Bank) (out : Resolved)
      → auto_resolve_dispute rt a clock bank ≡ ok out
      → p ≡ out.pending_settlement
      → IsPaidOut rt p

IsPaidOut-final : (rt : Runtime) (p : PendingSettlement) → IsPaidOut rt p → p.is_finalized ≡ true
IsPaidOut-final rt p (by_finalization a clock bank out h same) =
    let (_, _, final) = finalize-booked rt a clock bank out h in
    ap (λ (q : PendingSettlement). q.is_finalized) same ∙ final
IsPaidOut-final rt p (by_resolution a clock bank out h same) =
    let (_, _, _, _, _, _, final) = resolve-booked rt a clock bank out h in
    ap (λ (q : PendingSettlement). q.is_finalized) same ∙ final

-- After a pending settlement has been paid out, by its finalisation or by the resolution of its
-- dispute, no later finalisation, dispute or resolution of it succeeds, whatever the other accounts
-- hold.
pub paid_once :
    (rt : Runtime) (p : PendingSettlement) (fin : FinalizeAccounts) (file : FileAccounts)
    (res : ResolveAccounts) (evidence kind : ℕ) (clock : Clock) (bank bank' : Bank)
    (finalized : Finalized) (p' : PendingSettlement) (d : DisputeRecord) (resolved : Resolved)
    → IsPaidOut rt p
    → fin.pending_settlement ≡ p
    → file.pending_settlement ≡ p
    → res.pending_settlement ≡ p
    → (finalize_settlement rt fin clock bank ≢ ok finalized)
      × (file_dispute rt file evidence kind clock bank ≢ ok (p', d, bank'))
      × (auto_resolve_dispute rt res clock bank ≢ ok resolved)
paid_once rt p fin file res evidence kind clock bank bank' finalized p' d resolved paid here here'
      here'' =
    let final = IsPaidOut-final rt p paid in
    (
      λ h. let (_, was_open, _) = finalize-booked rt fin clock bank finalized h in cc,
      λ h. let (was_open, _) = file-booked rt file evidence kind clock bank bank' p' d h in cc,
      λ h. let (_, _, _, _, _, was_open, _) = resolve-booked rt res clock bank resolved h in cc,
    )
