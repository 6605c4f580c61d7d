-- ===== src/Events.antt =====
-- src/state.rs, `WsEventCoordinator`: what the bridge broadcasts to the browsers, and when.
pub mod Message
pub mod Pending
pub mod Coordinator
pub mod Client
pub mod Schedule
pub mod Armed
pub mod Timer
pub mod Stranded
pub mod Records
