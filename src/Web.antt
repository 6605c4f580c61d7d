-- ===== src/Web.antt =====
-- src/web.rs: who may open a WebSocket, and what one connection sends of the broadcasts.
pub mod Outbound
pub mod Auth
