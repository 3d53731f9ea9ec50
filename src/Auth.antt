-- ===== src/Auth.antt =====
-- Accounts of the server: passwords, sessions and roles (server/src/service/auth_service.rs).
pub mod Service
pub mod Sessions
pub mod Login
pub mod Logout
