-- ===== src/Events/Client/Replication.antt =====
-- The coordinator as a service: whatever calls it serves, in whatever order the gate lets them
-- through, the replica of a session follows the bridge's record.
mod Sync
mod Told
mod Many
mod Serve
mod Runs
pub use Told.*
pub use Many.*
pub use Sync.*
unfoldable pub use Serve.*
pub use Runs.*
