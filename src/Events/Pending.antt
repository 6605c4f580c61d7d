-- ===== src/Events/Pending.antt =====
-- src/state.rs: `PendingSessionDeltas`, the batch of deltas that wait for the throttle window.
mod Defs
mod Laws
unfoldable pub use Defs.*
pub use Laws.*
