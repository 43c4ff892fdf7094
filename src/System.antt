-- ===== src/System.antt =====
-- The health of the system: admin-dashboard/lib/admin/system-types.ts and system-health.ts.
pub mod Types
pub mod Health
pub mod Read
pub mod Requests
mod Tests
