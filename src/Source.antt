-- ===== src/Source.antt =====
-- The GitLabSource resource: pkg/apis/sources/v1alpha1.
pub mod Types
pub mod Status
pub mod EventTypes
