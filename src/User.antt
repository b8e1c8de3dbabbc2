-- ===== src/User.antt =====
-- user: the names and the addresses of users at services, and the users.
pub mod Validate
pub mod User
pub mod Signing
pub mod Services
pub mod Result
pub mod Examples
