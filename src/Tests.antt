-- ===== src/Tests.antt =====
-- The theorems at concrete inputs.
mod Sample
mod Tokens
mod Gate
mod Accounts
mod Login
mod Caching
mod Answers
mod Migrations
mod Chains
mod Coherent
mod Finality
mod Stale
mod Password
mod Deleted
mod Warm
mod Wiring
