-- ===== src/Subscription.antt =====
-- instructions/subscription.rs: recurring payments.
pub mod Billing
pub mod Handlers
pub mod Ledger
pub mod Life
