-- ===== src/Server.antt =====
-- The API server's components.
pub mod Auth
pub mod RateLimit
pub mod Permissions
pub mod Push
pub mod Pull
pub mod Records
