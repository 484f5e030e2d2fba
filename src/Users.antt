-- ===== src/Users.antt =====
-- src/modules/users: the entity with its state machine, the table, the repository, the service.
pub mod Exceptions
pub mod Entities
pub mod Models
pub mod Repository
pub mod Schemas
pub mod Service
pub mod Registration
pub mod Profile
pub mod Password
pub mod Listing
pub mod Router
