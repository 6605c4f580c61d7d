-- ===== src/Runtime/Transport.antt =====
-- src/state.rs: transports, that is the stdio children, and the sessions that they serve.
mod Defs
pub mod Removal
pub mod Routing
unfoldable pub use Defs.*
