-- ===== src/Runtime/Fork.antt =====
-- src/state.rs: pending session forks.
mod Defs
pub mod Exclusive
unfoldable pub use Defs.*
