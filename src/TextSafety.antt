-- ===== src/TextSafety.antt =====
-- Cutting and searching text at the boundaries of its characters (src/text_safety.rs).
pub mod Utf8
pub mod Prefix
pub mod Search
