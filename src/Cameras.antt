-- ===== src/Cameras.antt =====
-- The monitoring of cameras: admin-dashboard/lib/admin/camera-monitoring-types.ts and
-- camera-monitoring-normalizer.ts.
pub mod Types
pub mod Status
pub mod Read
pub mod Health
pub mod Summary
pub mod Catalog
pub mod Hosts
pub mod Requests
mod Tests
