-- ===== src/Tests/Escrow.antt =====
-- The life of an escrow: it is created, settles twenty calls, and pays for them after the window.
use synapse_sap.Common.{◌≡◌, refl, true, some, [], ◌∷◌}
use synapse_sap.Common.Int.{pos}
use synapse_sap.Errors.{ok}
use synapse_sap.Constants.{protocol_treasury}
use synapse_sap.State.{
  validate_price, EscrowAccountV2, PendingSettlement, SettlementSecurity, AgentStats,
}
use synapse_sap.Runtime.{Bank, AccountInfo, update, move_lamports}
use synapse_sap.Seeds.{
  agent_seeds, stats_seeds, pricing_seeds, stake_seeds, escrow_seeds, pending_seeds, at_address,
  at_bump,
}
use synapse_sap.Token.{find_native_treasury}
use synapse_sap.Pricing.{calculate_settle_amount, calculate_protocol_fee}
use synapse_sap.Escrow.Create.{CreateArgs, new_escrow, create_escrow_v2, create_terms, take_deposit}
use synapse_sap.Escrow.Deposit.{
  DepositAccounts, deposit_escrow_v2, check_obligation, check_expiry, book_deposit,
}
use synapse_sap.Escrow.Settle.{
  SettleAccounts, Settled, new_pending, settle_calls_v2, settle_constraints, quote_settlement,
  settle_by_mode, pay_pending_fee, pay_native_fee, book_pending, create_pending, find_account,
}
use synapse_sap.Escrow.Withdraw.{
  WithdrawAccounts, withdraw_escrow_v2, withdraw_amount, book_withdrawn,
}
use synapse_sap.Tests.Demo

abbrev pub escrow : EscrowAccountV2
escrow =
    record (new_escrow Demo.create_accounts Demo.create_args Demo.clock 255 100000
      SettlementSecurity.dispute_window) { balance = 50000; total_deposited = 50000 }

abbrev pub opened_stats : AgentStats
opened_stats = record (Demo.stats) { active_escrows = 1; updated_at = pos 1000 }

-- The bank after an account has paid another, from a bank where all have the same.
abbrev pub opened_bank : Bank
opened_bank = record (Demo.bank) {
  lamports = update (update Demo.bank.lamports Demo.depositor 999950000) Demo.escrow_key 1000050000;
}

pub create-ok :
    create_escrow_v2 Demo.runtime Demo.create_accounts Demo.create_args Demo.clock Demo.bank
    ≡ ok (escrow, opened_stats, opened_bank)
unfolding validate_price create_escrow_v2 create_terms take_deposit at_address at_bump agent_seeds
    stats_seeds pricing_seeds stake_seeds escrow_seeds move_lamports
create-ok = refl

-- An escrow with no cap on its calls and no deposit.
abbrev pub unlimited_args : CreateArgs
unlimited_args = record (Demo.create_args) { max_calls = 0; initial_deposit = 0 }

abbrev pub unlimited : EscrowAccountV2
unlimited =
    new_escrow Demo.create_accounts unlimited_args Demo.clock 255 0
      SettlementSecurity.dispute_window

pub unlimited-ok :
    create_escrow_v2 Demo.runtime Demo.create_accounts unlimited_args Demo.clock Demo.bank
    ≡ ok (unlimited, opened_stats, Demo.bank)
unfolding validate_price create_escrow_v2 create_terms take_deposit at_address at_bump agent_seeds
    stats_seeds pricing_seeds stake_seeds escrow_seeds move_lamports
unlimited-ok = refl

abbrev pub deposit_accounts : DepositAccounts
deposit_accounts = record {
  depositor = Demo.depositor;
  escrow_key = Demo.escrow_key;
  escrow = escrow;
  remaining = [];
}

abbrev pub topped_up : EscrowAccountV2
topped_up = record escrow { balance = 90000; total_deposited = 90000 }

abbrev pub topped_bank : Bank
topped_bank = record (Demo.bank) {
  lamports = update (update Demo.bank.lamports Demo.depositor 999960000) Demo.escrow_key 1000040000;
}

pub deposit-ok :
    deposit_escrow_v2 Demo.runtime deposit_accounts 0 40000 Demo.clock Demo.bank
    ≡ ok (topped_up, topped_bank)
unfolding deposit_escrow_v2 check_obligation check_expiry book_deposit take_deposit at_bump
    escrow_seeds agent_seeds move_lamports
deposit-ok = refl

abbrev treasury : AccountInfo
treasury = record { key = protocol_treasury; is_signer = true; is_writable = true }

abbrev pending_info : AccountInfo
pending_info = record { key = Demo.pending_key; is_signer = true; is_writable = true }

abbrev pub settle_accounts : SettleAccounts
settle_accounts = record {
  wallet = Demo.wallet;
  agent_key = Demo.agent_key;
  agent_stats_key = Demo.stats_key;
  agent_stats = Demo.stats;
  escrow_key = Demo.escrow_key;
  escrow = escrow;
  remaining = treasury ∷ pending_info ∷ [];
}

-- Twenty calls, twenty thousand lamports, a fee of a hundred.
abbrev pub settled_escrow : EscrowAccountV2
settled_escrow = record escrow {
  settlement_index = 1;
  balance = 49900;
  pending_amount = 20000;
  pending_calls = 20;
  pending_settlement_count = 1;
}

abbrev pub pending : PendingSettlement
pending = new_pending settle_accounts (record { amount = 20000; fee = 100 }) 20 99 Demo.clock 255 60

abbrev pub settled : Settled
settled = record {
  escrow = settled_escrow;
  agent_stats = Demo.stats;
  bank = record (Demo.bank) {
    lamports =
        update (update Demo.bank.lamports Demo.escrow_key 999999900) protocol_treasury 1000000100;
  };
  pending = some (Demo.pending_key, pending);
}

pub settle-ok :
    settle_calls_v2 Demo.runtime settle_accounts 0 20 99 Demo.clock Demo.bank ≡ ok settled
unfolding settle_calls_v2 settle_constraints quote_settlement calculate_settle_amount
    calculate_protocol_fee settle_by_mode pay_pending_fee pay_native_fee book_pending create_pending
    find_account find_native_treasury at_address at_bump agent_seeds stats_seeds escrow_seeds
    pending_seeds move_lamports
settle-ok = refl

-- The depositor asks for everything, and gets what is not locked.
abbrev pub withdraw_accounts : WithdrawAccounts
withdraw_accounts = record {
  depositor = Demo.depositor;
  escrow_key = Demo.escrow_key;
  escrow = settled_escrow;
  remaining = [];
}

abbrev pub withdrawn : EscrowAccountV2
withdrawn = record settled_escrow { balance = 20000 }

abbrev pub withdrawn_bank : Bank
withdrawn_bank = record (Demo.bank) {
  lamports = update (update Demo.bank.lamports Demo.escrow_key 999970100) Demo.depositor 1000029900;
}

pub withdraw-ok :
    withdraw_escrow_v2 Demo.runtime withdraw_accounts 45000 Demo.bank
    ≡ ok (withdrawn, withdrawn_bank)
unfolding withdraw_escrow_v2 withdraw_amount book_withdrawn at_bump escrow_seeds agent_seeds
    move_lamports
withdraw-ok = refl
