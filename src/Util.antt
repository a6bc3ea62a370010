-- ===== src/Util.antt =====
-- The package util.
pub mod Iter
pub mod ThreadWatcher
pub mod Tests
