-- ===== src/Binding.antt =====
-- The GitLabBinding resource: pkg/apis/bindings/v1alpha1 and the names of gitlab/client.go.
pub mod Types
pub mod Validation
pub mod Status
pub mod PodSpec
