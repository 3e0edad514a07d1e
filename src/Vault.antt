-- ===== src/Vault.antt =====
-- instructions/vault.rs: memory vaults, their sessions of numbered inscriptions in epochs, and
-- delegates. The encrypted data goes to the log; the accounts keep counters and a rolling hash.
pub mod Handlers
pub mod Inscribe
pub mod Session
pub mod Sequence
pub mod Epochs
pub mod Delegate
