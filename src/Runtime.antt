-- ===== src/Runtime.antt =====
-- The generated code around `ReconcileKind` and `FinalizeKind`:
-- pkg/client/injection/reconciler/sources/v1alpha1/gitlabsource.
pub mod Impl
pub mod Finalizers
pub mod State
pub mod StatusUpdate
pub mod Reconcile
pub mod New
