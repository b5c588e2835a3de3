-- ===== src/Informers.antt =====
-- The generated informers: pkg/client/informers/externalversions.
pub mod Factory
pub mod Groups
