-- ===== src/Receipt.antt =====
-- instructions/receipt.rs: receipts of service, their proofs in a dispute, and its resolution.
pub mod Merkle
pub mod Tree
pub mod Message
pub mod Search
pub mod Proven
pub mod Signature
pub mod Submit
pub mod Resolve
pub mod Outcome
