-- ===== src/Recency/Line.antt =====
-- src/session_recency.rs: `read_json_line`, one physical line at a time.
pub mod Defs
mod Cut
mod Gives
pub mod Whole
