-- ===== src/Adapter.antt =====
-- The receive adapter, which turns webhook requests into CloudEvents: pkg/adapter.
pub mod Header
pub mod Events
pub mod Webhook
pub mod Server
