-- ===== src/Ledger.antt =====
-- instructions/ledger.rs: the memory ledger of a session, a ring of the latest entries in 4096
-- bytes, sealed into permanent pages. The loops take the ring's length as fuel, which is enough,
-- since every round passes over at least two bytes.
pub mod Ring
pub mod Handlers
pub mod Window
pub mod Refines
pub mod Entries
pub mod Life
