-- ===== src/Staking.antt =====
-- instructions/staking.rs: the handlers of an agent's stake.
pub mod Handlers
pub mod Floor
