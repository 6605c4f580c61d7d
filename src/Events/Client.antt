-- ===== src/Events/Client.antt =====
-- The browser's replica of one session: frontend/src/sessionClientState.ts, `applySessionSnapshot`
-- and `applySessionDelta`, with the handling of a refused delta in frontend/src/main.ts.
mod Link
pub mod Drain
pub mod Replication
unfoldable pub use Link.*
