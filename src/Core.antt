-- ===== src/Core.antt =====
-- src/core
pub mod Settings
pub mod Handlers
pub mod Middleware
