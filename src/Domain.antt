-- ===== src/Domain.antt =====
-- The domain model of the licensing server (server/src/domain).
pub mod Status
pub mod Records
