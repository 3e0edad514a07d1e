-- ===== src/Attestation.antt =====
-- instructions/attestation.rs: statements of third parties about an agent.
pub mod Handlers
pub mod Life
