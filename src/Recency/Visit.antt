-- ===== src/Recency/Visit.antt =====
-- src/session_recency.rs: messages read key by key and as a whole.
pub mod Defs
pub mod Agreement
