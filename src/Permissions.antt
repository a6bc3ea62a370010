-- ===== src/Permissions.antt =====
-- The package permissions: who may use the server, and which records a user may read and write.
pub mod Owner
pub mod User
pub mod Admin
pub mod Register
pub mod Tests
