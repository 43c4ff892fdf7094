-- ===== src/Auth.antt =====
-- Sign-in, roles and permissions of the dashboard: admin-dashboard/lib/auth and
-- admin-dashboard/lib/api.ts.
pub mod Roles
pub mod Permissions
pub mod Routes
pub mod Users
