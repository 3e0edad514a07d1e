-- ===== src/Index.antt =====
-- instructions/indexing.rs and instructions/index_page.rs: the discovery indexes of agents by
-- capability and by protocol, and their overflow pages. Each keeps a list of at most 100 agents.
pub mod Members
pub mod Capability
pub mod Protocol
pub mod Page
pub mod Life
pub mod CapabilitySet
pub mod ProtocolSet
pub mod PageSet
