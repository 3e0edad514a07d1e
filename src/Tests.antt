-- ===== src/Tests.antt =====
-- Runs of the handlers at concrete inputs, and the theorems applied to them.
pub mod Demo
pub mod Escrow
pub mod Vault
mod Ledger
mod Index
mod Feedback
mod Attestation
mod Registry
mod Validator
mod Agent
mod Coverage
mod Consent
mod Lifecycle
mod Pricing
mod Receipt
mod Proof
mod Tool
mod Legacy
mod Staking
mod Subscription
