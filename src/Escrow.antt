-- ===== src/Escrow.antt =====
-- instructions/escrow_v2.rs: the escrow's handlers. Each checks the account constraints in the
-- order of the accounts, then runs the handler's body; what it returns is the accounts that it
-- writes and the bank. An error leaves the chain as it was, so it carries no state.
pub mod Create
pub mod Deposit
pub mod Settle
pub mod Finalize
pub mod Withdraw
pub mod Accounting
pub mod Coverage
pub mod Consent
