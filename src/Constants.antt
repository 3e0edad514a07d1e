-- ===== src/Constants.antt =====
-- constants.rs.
use synapse_sap.Common.{ℕ}
use synapse_sap.State.{Pubkey}

abbrev pub protocol_treasury : Pubkey
protocol_treasury = 0xfe3a23feb172d6c8002703ea0171a8f93bdb6ccbf5bfd6e58b7e781d32684932

abbrev pub protocol_fee_bps : ℕ
protocol_fee_bps = 50

abbrev pub bps_denominator : ℕ
bps_denominator = 10000

abbrev pub registration_fee_lamports : ℕ
registration_fee_lamports = 40000000
