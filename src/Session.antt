-- ===== src/Session.antt =====
-- src/session.rs and the handlers of src/rpc.rs: a session's record, its transcript, the frames of
-- its child process that change it, and the projection that the coordinator sends.
pub mod Crates
pub mod Text
pub mod Types
pub mod Hash
pub mod Todo
pub mod Review
pub mod Parts
pub mod Record
pub mod Transcript
pub mod Source
pub mod Removal
pub mod Frames
pub mod Settle
pub mod State
pub mod Settled
pub mod Listing
pub mod Service
pub mod Live
pub mod Status
pub mod Replace
