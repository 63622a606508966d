-- ===== src/Platform.antt =====
-- internal/platform: the packages that every feature uses, as far as they have logic of their own.
pub mod Config
