-- ===== src/Client.antt =====
-- The desktop client's components.
pub mod Outbox
pub mod Download
pub mod Store
pub mod Merge
