-- ===== src/Tests/Consent.antt =====
-- A settlement of a co-signed escrow, with the co-signer's signature.
use synapse_sap.Common.{◌≡◌, refl, true, some, none, [], ◌∷◌}
use synapse_sap.Common.Int.{pos}
use synapse_sap.Errors.{ok}
use synapse_sap.Constants.{protocol_treasury}
use synapse_sap.State.{Pubkey, EscrowAccountV2, SettlementSecurity}
use synapse_sap.Runtime.{update, move_lamports}
use synapse_sap.Seeds.{agent_seeds, stats_seeds, escrow_seeds, at_address, at_bump}
use synapse_sap.Token.{find_native_treasury}
use synapse_sap.Pricing.{calculate_settle_amount, calculate_protocol_fee}
use synapse_sap.Escrow.Settle.{
  SettleAccounts, Settled, settle_calls_v2, settle_constraints, quote_settlement, settle_by_mode,
  pay_co_signed, pay_native_fee, has_co_signed, book_co_signed, count_calls,
}
use synapse_sap.Escrow.Consent.{IsSignedBy, settle_calls_v2-IsSignedBy}
use synapse_sap.Tests.Demo
use synapse_sap.Tests.Escrow

abbrev co_signed_escrow : EscrowAccountV2
co_signed_escrow = record (Escrow.escrow) {
  settlement_security = SettlementSecurity.co_signed;
  co_signer = some 33;
}

abbrev accounts : SettleAccounts
accounts = record (Escrow.settle_accounts) {
  escrow = co_signed_escrow;
  remaining =
      record { key = protocol_treasury; is_signer = true; is_writable = true }
      ∷ record { key = 33; is_signer = true; is_writable = true }
      ∷ [];
}

abbrev settled : Settled
settled = record {
  escrow = record co_signed_escrow {
    balance = 29900;
    total_settled = 20000;
    total_calls_settled = 20;
    last_settled_at = pos 1000;
  };
  agent_stats = record (Demo.stats) { total_calls_served = 20; updated_at = pos 1000 };
  bank = record (Demo.bank) {
    lamports =
        update
          (update
            (update (update Demo.bank.lamports Demo.escrow_key 999980000) Demo.wallet 1000020000)
            Demo.escrow_key 999979900)
          protocol_treasury 1000000100;
  };
  pending = none;
}

co_signed-ok : settle_calls_v2 Demo.runtime accounts 0 20 99 Demo.clock Demo.bank ≡ ok settled
unfolding settle_calls_v2 settle_constraints quote_settlement calculate_settle_amount
    calculate_protocol_fee settle_by_mode pay_co_signed pay_native_fee has_co_signed book_co_signed
    count_calls find_native_treasury at_address at_bump agent_seeds stats_seeds escrow_seeds
    move_lamports
co_signed-ok = refl

settle_calls_v2-IsSignedBy_example :
    (co_signer : Pubkey) × (co_signed_escrow.co_signer ≡ some co_signer)
    × IsSignedBy accounts.remaining co_signer
settle_calls_v2-IsSignedBy_example =
    settle_calls_v2-IsSignedBy Demo.runtime accounts 0 20 99 Demo.clock Demo.bank settled
      co_signed-ok refl
