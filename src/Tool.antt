-- ===== src/Tool.antt =====
-- instructions/tools.rs: the tools of an agent, and checkpoints of memory sessions; and, from
-- instructions/indexing.rs, the index of tools by category.
pub mod Handlers
pub mod Life
pub mod Category
pub mod CategorySet
pub mod Checkpoint
pub mod Snapshots
