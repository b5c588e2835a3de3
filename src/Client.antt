-- ===== src/Client.antt =====
-- The client of the GitLab API: pkg/client/gitlab/webhook_client.go.
pub mod Hooks
pub mod ProjectUrl
pub mod Webhooks
