-- ===== src/Alerts.antt =====
-- Alerts and their deliveries: admin-dashboard/lib/admin/alerts-normalizer.ts, alerts-types.ts and
-- alerts-api.ts.
pub mod Sanitize
pub mod Clean
pub mod Lookup
pub mod Types
pub mod Read
pub mod Summary
pub mod Filter
pub mod Requests
mod Tests
