-- ===== src/Auth.antt =====
-- src/modules/auth
pub mod Exceptions
pub mod Entities
pub mod Models
pub mod Locked
pub mod Repository
pub mod Schemas
pub mod Service
pub mod Revoker
pub mod Lockout
pub mod Presents
pub mod Rotation
pub mod Renewal
pub mod Signout
pub mod Reuse
pub mod Gate
pub mod Admission
pub mod Limit
pub mod Chain
pub mod Rows
pub mod Opening
pub mod Credentials
pub mod Router
pub mod Refused
pub mod Access
