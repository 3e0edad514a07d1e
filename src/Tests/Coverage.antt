-- ===== src/Tests/Coverage.antt =====
-- The theorems on collateral, deposits and withdrawals, at the runs of an escrow.
use synapse_sap.Common.{◌+◌, ◌-◌, ◌≤◌, ◌<◌, ◌≡◌, refl, min, arith}
use synapse_sap.Errors.{ok}
use synapse_sap.State.{SettlementSecurity}
use synapse_sap.Escrow.Deposit.{check_obligation}
use synapse_sap.Escrow.Coverage.{
  IsBacked, create_escrow_v2-IsBacked, deposit_within_obligation, unlimited_uncapped,
  withdraw_leaves_pending,
}
use synapse_sap.Tests.Demo
use synapse_sap.Tests.Escrow.{
  escrow, opened_stats, opened_bank, create-ok, unlimited_args, unlimited, unlimited-ok,
  deposit_accounts, topped_up, topped_bank, deposit-ok, settled_escrow, withdraw_accounts,
  withdrawn, withdrawn_bank, withdraw-ok,
}

create_escrow_v2-IsBacked_example :
    IsBacked Demo.create_accounts Demo.create_args 100000 SettlementSecurity.dispute_window
    × (escrow.balance ≡ 50000)
create_escrow_v2-IsBacked_example =
    create_escrow_v2-IsBacked Demo.runtime Demo.create_accounts Demo.create_args Demo.clock
      Demo.bank opened_bank escrow opened_stats create-ok

deposit_within_obligation_example :
    (90000 ≤ 100000)
    × (topped_up.balance ≡ escrow.balance + 40000)
    × (topped_up.total_deposited ≡ escrow.total_deposited + 40000)
deposit_within_obligation_example =
    deposit_within_obligation Demo.runtime deposit_accounts 0 40000 Demo.clock Demo.bank topped_bank
      topped_up deposit-ok (omega arith)

unlimited_uncapped_example : check_obligation unlimited 1000000000000 ≡ ok tt
unlimited_uncapped_example =
    unlimited_uncapped Demo.runtime Demo.create_accounts unlimited_args Demo.clock Demo.bank
      Demo.bank unlimited opened_stats unlimited-ok refl refl 1000000000000

withdraw_leaves_pending_example :
    (withdrawn.balance + min 45000 (settled_escrow.balance - settled_escrow.pending_amount)
      ≡ settled_escrow.balance)
    × (20000 < 49900)
    × (20000 ≤ 20000)
    × (withdrawn.pending_amount ≡ settled_escrow.pending_amount)
withdraw_leaves_pending_example =
    withdraw_leaves_pending Demo.runtime withdraw_accounts 45000 Demo.bank withdrawn_bank withdrawn
      withdraw-ok
