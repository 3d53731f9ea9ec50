-- ===== src/Licensing.antt =====
-- The license service (server/src/service/license_service.rs).
pub mod Service
pub mod Activation
pub mod Entitlement
pub mod Release
