-- ===== src/Session/Frames.antt =====
-- src/rpc.rs: the frames of a child process that change a session's transcript in place. A handler
-- returns the record and the index from which the transcript changed, as `mutate_session_delta` wants.
pub mod Message
pub mod Tool
pub mod Honest
pub mod Frame
pub mod Placed
pub mod Handled
