-- ===== src/Http.antt =====
-- The HTTP layer of the licensing server: errors and the webhook endpoint (server/src/routes,
-- server/src/auth).
pub mod Error
pub mod Signature
pub mod Hex
pub mod Webhook
pub mod Trust
pub mod ClientIp
pub mod Spoofing
