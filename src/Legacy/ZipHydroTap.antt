-- ===== src/Legacy/ZipHydroTap.antt =====
-- codecs/legacyDecoders/ziphydrotap.go.
pub mod Cursor
pub mod Places
pub mod Names
pub mod Poll
pub mod Write
pub mod Static
pub mod Decode
