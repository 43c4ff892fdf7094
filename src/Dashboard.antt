-- ===== src/Dashboard.antt =====
-- The overview of the dashboard: admin-dashboard/lib/health-score.ts and the dashboard-*.ts of
-- admin-dashboard/lib/admin.
pub mod Score
pub mod Read
mod Tests
