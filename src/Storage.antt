-- ===== src/Storage.antt =====
-- The package storage, less the storages that Transform and Permissions model.
pub mod Search
pub mod Tests
pub mod Prefetch
pub mod Traverse
