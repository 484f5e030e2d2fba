-- ===== src/Migrations.antt =====
-- alembic/: the revisions of the database schema, env.py, and what the ORM models declare.
pub mod Catalog
pub mod Metadata
pub mod Versions
pub mod Environment
pub mod Head
pub mod Runs
pub mod Models
