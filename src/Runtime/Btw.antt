-- ===== src/Runtime/Btw.antt =====
-- src/state.rs: side questions ("by the way" requests) and the commands sent for them.
mod Defs
pub mod Routed
unfoldable pub use Defs.*
