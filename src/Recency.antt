-- ===== src/Recency.antt =====
-- src/session_recency.rs: when a session's conversation was last active, from its journal.
pub mod Fact
pub mod Line
pub mod Journal
pub mod Branch
pub mod Visit
