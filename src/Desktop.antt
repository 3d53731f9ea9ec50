-- ===== src/Desktop.antt =====
-- The license check of the desktop program (src/license).
pub mod Offline
pub mod Grace
pub mod Store
pub mod License
pub mod Enforcement
pub mod Held
pub mod Revocation
pub mod Installation
pub mod Tampering
pub mod Refusal
pub mod Lapse
