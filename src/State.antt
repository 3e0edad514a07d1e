-- ===== src/State.antt =====
-- state.rs: the accounts of the program, each a record with the source's fields. A `Pubkey` and a
-- 32-byte hash are the number that their bytes spell, the most significant first; an unsigned
-- integer is a natural number, an i64 an integer; a `String` is the list of its bytes.
mod Agent
mod Escrow
mod Stake
mod Memory
mod Registry
mod Tools
mod Legacy
pub use Agent.*
unfoldable pub use Agent.{validate_price}
pub use Escrow.*
pub use Stake.*
pub use Memory.*
pub use Registry.*
pub use Tools.*
unfoldable pub use Tools.{http_method_from_u8, category_from_u8}
pub use Legacy.*
unfoldable pub use Legacy.{plugin_type_from_u8}
