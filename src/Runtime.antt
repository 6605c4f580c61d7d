-- ===== src/Runtime.antt =====
-- src/state.rs, `SessionRuntimeState`: the registries of transports, pending requests and session
-- metadata. A method takes its locks one after the other and waits for nothing else; it is one step
-- here, and what other tasks do between two locks is left out.
pub mod State
pub mod Transport
pub mod Fork
pub mod Rewind
pub mod Btw
pub mod Metadata
pub mod Stderr
