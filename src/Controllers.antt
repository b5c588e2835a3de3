-- ===== src/Controllers.antt =====
-- The controllers and the admission webhooks: pkg/reconciler/binding/controller.go and
-- cmd/webhook/main.go.
pub mod Bindings
pub mod Webhooks
pub mod Laws
