-- ===== src/Dispute.antt =====
-- instructions/dispute.rs: filing and closing disputes, and the slash of an agent's stake.
pub mod File
pub mod Slash
pub mod Close
pub mod Remaining
pub mod Collateral
