-- ===== src/Crypto.antt =====
-- The package crypto.
pub mod Kdf
pub mod Tests
