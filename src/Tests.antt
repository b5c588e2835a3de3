-- ===== src/Tests.antt =====
-- The theorems at concrete inputs: a small cluster with a GitLab project, the adapter's requests,
-- and a pod to bind.
mod Board
mod Cluster
mod Reconciling
mod Adapting
mod Binding
mod Client
mod Source
mod Equality
mod Instance
mod Running
mod Reconciled
mod Watching
mod Copying
mod Releasing
mod Wiring
mod Serving
mod Injecting
