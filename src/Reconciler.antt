-- ===== src/Reconciler.antt =====
-- The reconciler of GitLabSources: pkg/reconciler/source/gitlabsource.go.
pub mod Cluster
pub mod Calls
pub mod Adapter
pub mod Sync
pub mod Kind
