-- ===== src/Agent.antt =====
-- instructions/agent.rs: the registration of agents and their state.
pub mod Handlers
pub mod Counters
