-- ===== src/Shared.antt =====
-- src/shared: the exception hierarchy, token and password helpers, pagination and envelopes.
pub mod Exceptions
pub mod Security
pub mod Responses
