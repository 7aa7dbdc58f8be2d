-- ===== src/Releases.antt =====
-- The releases of applications, src/features/ci-cd.
pub mod Grouping
pub mod Versioning
pub mod Tracking
