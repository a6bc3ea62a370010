-- ===== src/Transform.antt =====
-- The package transform: records are compressed and encrypted before they leave the client, each
-- with a signature that says how.
pub mod Encrypt
pub mod Aes
pub mod Compress
pub mod Register
pub mod Storage
pub mod Tests
