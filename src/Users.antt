-- ===== src/Users.antt =====
-- The users of the dashboard as an administrator manages them:
-- admin-dashboard/lib/admin/users-types.ts, users-normalizer.ts and users-api.ts.
pub mod Read
pub mod Requests
mod Tests
