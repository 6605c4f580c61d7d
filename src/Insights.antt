-- ===== src/Insights.antt =====
-- src/session_insights.rs: requests for a session's activity and recap, on the registries of
-- src/state.rs.
pub mod Types
pub mod Requests
pub mod Steps
pub mod Outcomes
pub mod Progress
pub mod Answers
