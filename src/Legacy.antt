-- ===== src/Legacy.antt =====
-- What is built with the feature legacy-memory, instructions/buffer.rs, instructions/digest.rs,
-- instructions/memory.rs and instructions/plugin.rs.
pub mod Buffer
pub mod BufferLife
pub mod Digest
pub mod DigestLife
pub mod Entries
pub mod Plugins
