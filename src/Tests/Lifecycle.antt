-- ===== src/Tests/Lifecycle.antt =====
-- The theorems on an escrow's life, at the states of its runs.
use synapse_sap.Common.{◌≡◌, ◌≢◌, refl, true, [], ◌∷◌, arith}
use synapse_sap.Common.Int.{pos}
use synapse_sap.Errors.{ok}
use synapse_sap.State.{DisputeRecord, DisputeType, DisputeOutcome, EscrowAccountV2}
use synapse_sap.Runtime.{update, move_lamports}
use synapse_sap.Seeds.{agent_seeds, stats_seeds, escrow_seeds, pending_seeds, at_bump}
use synapse_sap.Escrow.Settle.{count_calls}
use synapse_sap.Escrow.Finalize.{
  FinalizeAccounts, Finalized, finalize_settlement, finalize_constraints, pay_finalized,
  book_finalized,
}
use synapse_sap.Dispute.File.{FileAccounts, file_dispute, new_dispute}
use synapse_sap.Receipt.Resolve.{ResolveAccounts, Resolved, auto_resolve_dispute}
use synapse_sap.Lifecycle.{World, Reach, created, next, settled}
use synapse_sap.Lifecycle.Invariant.{IsConsistent}
use synapse_sap.Lifecycle.Steps.{Reach-IsConsistent}
use synapse_sap.Lifecycle.Payable.{finalize_settlement_succeeds}
use synapse_sap.Lifecycle.Once.{by_finalization, paid_once}
use synapse_sap.Tests.Demo
use synapse_sap.Tests.Escrow

abbrev opened : World
opened = record { escrow = Escrow.escrow; pendings = [] }

abbrev waiting : World
waiting = record { escrow = Escrow.settled_escrow; pendings = Escrow.pending ∷ [] }

opened_reached : Reach Demo.runtime opened
opened_reached =
    created Demo.create_accounts Demo.create_args Demo.clock Demo.bank Escrow.opened_bank
      Escrow.escrow Escrow.opened_stats opened (omega arith) Escrow.create-ok refl

waiting_reached : Reach Demo.runtime waiting
waiting_reached = next opened waiting opened_reached (
    settled Escrow.settle_accounts 0 20 99 Demo.clock Demo.bank Escrow.settled refl Escrow.settle-ok
      refl)

Reach-IsConsistent_example : IsConsistent waiting
Reach-IsConsistent_example = Reach-IsConsistent Demo.runtime waiting waiting_reached

abbrev finalize_accounts : FinalizeAccounts
finalize_accounts = record {
  agent_wallet = Demo.wallet;
  escrow_key = Demo.escrow_key;
  escrow = Escrow.settled_escrow;
  pending_key = Demo.pending_key;
  pending_settlement = Escrow.pending;
  agent_stats_key = Demo.stats_key;
  agent_stats = Demo.stats;
  remaining = [];
}

constraints-ok : finalize_constraints Demo.runtime finalize_accounts ≡ ok tt
unfolding finalize_constraints at_bump agent_seeds stats_seeds escrow_seeds pending_seeds
constraints-ok = refl

finalize_settlement_succeeds_example :
    (out : Finalized) × (finalize_settlement Demo.runtime finalize_accounts
        (Demo.at 2000 60)
        Demo.bank
      ≡ ok out)
finalize_settlement_succeeds_example =
    finalize_settlement_succeeds Demo.runtime waiting 0 finalize_accounts (Demo.at 2000 60)
      Demo.bank waiting_reached refl refl refl constraints-ok refl (omega arith) refl (omega arith)
      (omega arith) (omega arith) (omega arith)

abbrev paid_escrow : EscrowAccountV2
paid_escrow = record (Escrow.settled_escrow) {
  balance = 29900;
  total_settled = 20000;
  total_calls_settled = 20;
  pending_amount = 0;
  pending_calls = 0;
  last_settled_at = pos 2000;
  pending_settlement_count = 0;
}

abbrev paid : Finalized
paid = record {
  escrow = paid_escrow;
  pending_settlement = record (Escrow.pending) {
    is_finalized = true;
    outcome = DisputeOutcome.auto_released;
  };
  agent_stats = record (Demo.stats) { total_calls_served = 20; updated_at = pos 2000 };
  bank = record (Demo.bank) {
    lamports = update (update Demo.bank.lamports Demo.escrow_key 999980000) Demo.wallet 1000020000;
  };
}

finalize-ok :
    finalize_settlement Demo.runtime finalize_accounts (Demo.at 2000 60) Demo.bank ≡ ok paid
unfolding finalize_settlement finalize_constraints pay_finalized book_finalized count_calls at_bump
    agent_seeds stats_seeds escrow_seeds pending_seeds move_lamports
finalize-ok = refl

abbrev finalize_again : FinalizeAccounts
finalize_again = record finalize_accounts {
  escrow = paid_escrow;
  pending_settlement = paid.pending_settlement;
}

abbrev file_accounts : FileAccounts
file_accounts = record {
  depositor = Demo.depositor;
  escrow_key = Demo.escrow_key;
  escrow = paid_escrow;
  pending_key = Demo.pending_key;
  pending_settlement = paid.pending_settlement;
  dispute_key = 77;
}

abbrev dispute : DisputeRecord
dispute =
    unfold new_dispute in
    new_dispute file_accounts DisputeType.overcharge 5 0 Demo.clock 255 (pos 9000)

abbrev resolve_accounts : ResolveAccounts
resolve_accounts = record {
  depositor = Demo.depositor;
  agent_wallet = Demo.wallet;
  escrow_key = Demo.escrow_key;
  escrow = paid_escrow;
  pending_key = Demo.pending_key;
  pending_settlement = paid.pending_settlement;
  dispute_key = 77;
  dispute = dispute;
  agent_stats_key = Demo.stats_key;
  agent_stats = Demo.stats;
  agent_stake_key = Demo.stake_key;
  agent_stake = Demo.stake;
  remaining = [];
}

abbrev resolved : Resolved
resolved = record {
  escrow = paid_escrow;
  pending_settlement = paid.pending_settlement;
  dispute = dispute;
  agent_stats = Demo.stats;
  agent_stake = Demo.stake;
  bank = Demo.bank;
}

paid_once_example :
    (finalize_settlement Demo.runtime finalize_again (Demo.at 2000 60) Demo.bank ≢ ok paid)
    × (file_dispute Demo.runtime file_accounts 5 2 (Demo.at 2000 60) Demo.bank
        ≢ ok (paid.pending_settlement, dispute, Demo.bank))
    × (auto_resolve_dispute Demo.runtime resolve_accounts (Demo.at 2000 60) Demo.bank ≢ ok resolved)
paid_once_example =
    paid_once Demo.runtime paid.pending_settlement finalize_again file_accounts resolve_accounts 5 2
      (Demo.at 2000 60) Demo.bank Demo.bank paid paid.pending_settlement dispute resolved
      (by_finalization finalize_accounts (Demo.at 2000 60) Demo.bank paid finalize-ok refl) refl
      refl refl
