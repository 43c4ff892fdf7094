-- ===== src/Entities.antt =====
-- Classrooms, children and parents: the readers, searches and requests of admin-dashboard/lib/admin.
pub mod Classrooms
pub mod Children
pub mod Parents
pub mod Requests
pub mod Tests
