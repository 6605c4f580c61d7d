-- ===== src/Time.antt =====
-- src/timestamp.rs: RFC 3339 times and the days of a date.
pub mod Civil
pub mod Calendar
pub mod Days
pub mod Text
pub mod Rfc3339
pub mod Print
pub mod Parsed
pub mod RoundTrip
