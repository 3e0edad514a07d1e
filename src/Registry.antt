-- ===== src/Registry.antt =====
-- instructions/global.rs and instructions/reclaim.rs: the global registry, whose first creator
-- becomes its authority, and what the authority may take.
pub mod Handlers
pub mod Reclaim
