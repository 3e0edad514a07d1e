-- ===== src/Validator.antt =====
-- validator.rs: the checks of the data that an agent registers.
pub mod Checks
pub mod Accepted
