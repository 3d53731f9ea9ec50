-- ===== src/Admin.antt =====
-- What an admin changes (server/src/service/admin_service.rs).
pub mod Service
pub mod Revocation
