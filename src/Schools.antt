-- ===== src/Schools.antt =====
-- Schools: admin-dashboard/lib/admin/schools-normalizer.ts and schools-types.ts, and
-- admin-dashboard/lib/school-form.ts.
pub mod Address
pub mod Types
pub mod Read
pub mod Form
pub mod Requests
mod Tests
