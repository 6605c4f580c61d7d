-- ===== src/Session/Frames/Honest.antt =====
-- The frames of src/rpc.rs tell the coordinator the truth: the entries before the index that a handler
-- returns are the entries that the browsers hold.
mod Tool
mod Start
mod Message
mod Boundary
pub use Tool.*
pub use Start.*
pub use Message.*
