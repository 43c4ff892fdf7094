-- ===== src/Billing.antt =====
-- Subscriptions, payments and invoices: the billing-*.ts of admin-dashboard/lib/admin.
pub mod Types
pub mod Read
pub mod Amounts
pub mod Requests
pub mod Tests
