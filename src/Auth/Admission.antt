-- ===== src/Auth/Admission.antt =====
-- Who passes the gate: src/modules/auth/dependencies/authentication.py on a cache and the tables.
pub mod Stale
pub mod Verdict
pub mod Coherent
pub mod Checks
pub mod Equivalence
pub mod Passes
