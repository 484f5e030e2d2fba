-- ===== src/Auth/Service.antt =====
-- src/modules/auth/service.py: the methods of `AuthService`, by use case.
pub mod Sessions
pub mod Login
pub mod Logout
pub mod Refresh
