-- ===== src/Lifecycle.antt =====
-- An escrow over its life: the account with all its pending settlements, and the handlers of
-- instructions/escrow_v2.rs, dispute.rs and receipt.rs as the steps between its states, in any
-- order, from any callers, at any times, whatever the other accounts hold. An error changes nothing
-- and is no step. A pending settlement keeps its place after it is final; closing its account then
-- touches none of the sums.
pub mod OpenSums
pub mod Booked
pub mod Invariant
pub mod Steps
pub mod Payable
pub mod Once
use synapse_sap.Common.{ℕ, zero, suc, ◌≤◌, ◌≡◌, Option, none, some, List, [], ◌∷◌, ◌++◌, get_elem?}
use synapse_sap.Errors.{ok}
use synapse_sap.Checked.{u64_max}
use synapse_sap.State.{Pubkey, AgentStats, EscrowAccountV2, PendingSettlement, DisputeRecord}
use synapse_sap.State.{ReceiptBatch}
use synapse_sap.Runtime.{Runtime, Bank, Clock}
use synapse_sap.Escrow.Create.{CreateAccounts, CreateArgs, create_escrow_v2}
use synapse_sap.Escrow.Deposit.{DepositAccounts, deposit_escrow_v2}
use synapse_sap.Escrow.Settle.{SettleAccounts, Settled, settle_calls_v2}
use synapse_sap.Escrow.Finalize.{FinalizeAccounts, Finalized, finalize_settlement}
use synapse_sap.Escrow.Withdraw.{WithdrawAccounts, withdraw_escrow_v2}
use synapse_sap.Dispute.File.{FileAccounts, file_dispute}
use synapse_sap.Receipt.Submit.{InscribeAccounts, InscribeArgs, inscribe_receipt_batch}
use synapse_sap.Receipt.Resolve.{ResolveAccounts, Resolved, auto_resolve_dispute}

pub record World : Type 0 where
  pub escrow : EscrowAccountV2
  pub pendings : List PendingSettlement

abbrev pub set : List PendingSettlement → ℕ → PendingSettlement → List PendingSettlement
set [] i p = []
set (x ∷ xs) zero p = p ∷ xs
set (x ∷ xs) (suc i) p = x ∷ set xs i p

-- A settlement in dispute-window mode adds a pending one.
abbrev pub add_pending :
    Option (Pubkey × PendingSettlement) → List PendingSettlement → List PendingSettlement
add_pending none ps = ps
add_pending (some (_, p)) ps = p ∷ ps

pub data Step (rt : Runtime) (w w' : World) : Type 0 where
  deposited :
      (a : DepositAccounts) (nonce amount : ℕ) (clock : Clock) (bank bank' : Bank)
      (e : EscrowAccountV2)
      → a.escrow ≡ w.escrow
      → deposit_escrow_v2 rt a nonce amount clock bank ≡ ok (e, bank')
      → w' ≡ record w { escrow = e }
      → Step rt w w'
  withdrawn :
      (a : WithdrawAccounts) (amount : ℕ) (bank bank' : Bank) (e : EscrowAccountV2)
      → a.escrow ≡ w.escrow
      → withdraw_escrow_v2 rt a amount bank ≡ ok (e, bank')
      → w' ≡ record w { escrow = e }
      → Step rt w w'
  settled :
      (a : SettleAccounts) (nonce calls hash : ℕ) (clock : Clock) (bank : Bank) (out : Settled)
      → a.escrow ≡ w.escrow
      → settle_calls_v2 rt a nonce calls hash clock bank ≡ ok out
      → w' ≡ record { escrow = out.escrow; pendings = add_pending out.pending w.pendings }
      → Step rt w w'
  finalized :
      (i : ℕ) (a : FinalizeAccounts) (clock : Clock) (bank : Bank) (out : Finalized)
      → a.escrow ≡ w.escrow
      → get_elem? w.pendings i ≡ some a.pending_settlement
      → finalize_settlement rt a clock bank ≡ ok out
      → w' ≡ record { escrow = out.escrow; pendings = set w.pendings i out.pending_settlement }
      → Step rt w w'
  disputed :
      (i : ℕ) (a : FileAccounts) (evidence kind : ℕ) (clock : Clock) (bank bank' : Bank)
      (p : PendingSettlement) (d : DisputeRecord)
      → a.escrow ≡ w.escrow
      → get_elem? w.pendings i ≡ some a.pending_settlement
      → file_dispute rt a evidence kind clock bank ≡ ok (p, d, bank')
      → w' ≡ record w { pendings = set w.pendings i p }
      → Step rt w w'
  resolved :
      (i : ℕ) (a : ResolveAccounts) (clock : Clock) (bank : Bank) (out : Resolved)
      → a.escrow ≡ w.escrow
      → get_elem? w.pendings i ≡ some a.pending_settlement
      → auto_resolve_dispute rt a clock bank ≡ ok out
      → w' ≡ record { escrow = out.escrow; pendings = set w.pendings i out.pending_settlement }
      → Step rt w w'
  inscribed :
      (a : InscribeAccounts) (args : InscribeArgs) (clock : Clock) (bank bank' : Bank)
      (e : EscrowAccountV2) (b : ReceiptBatch)
      → a.escrow ≡ w.escrow
      → inscribe_receipt_batch rt a args clock bank ≡ ok (e, b, bank')
      → w' ≡ record w { escrow = e }
      → Step rt w w'

-- The states that a created escrow can come to; the deposit is a u64.
pub data Reach (rt : Runtime) : World → Type 0 where
  created :
      (a : CreateAccounts) (args : CreateArgs) (clock : Clock) (bank bank' : Bank)
      (e : EscrowAccountV2) (stats : AgentStats) (w : World)
      → args.initial_deposit ≤ u64_max
      → create_escrow_v2 rt a args clock bank ≡ ok (e, stats, bank')
      → w ≡ record { escrow = e; pendings = [] }
      → Reach rt w
  next : (v w : World) → Reach rt v → Step rt v w → Reach rt w
