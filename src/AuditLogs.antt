-- ===== src/AuditLogs.antt =====
-- Audit logs: admin-dashboard/lib/admin/audit-logs-utils.ts.
pub mod Sanitize
pub mod Clean
pub mod Logs
pub mod Read
pub mod Requests
mod Tests
