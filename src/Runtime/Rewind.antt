-- ===== src/Runtime/Rewind.antt =====
-- src/state.rs: pending rewinds.
mod Defs
pub mod Exclusive
unfoldable pub use Defs.*
