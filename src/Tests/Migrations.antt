-- ===== src/Tests/Migrations.antt =====
-- Migrations on databases that are lists of tables.
use async_pulse.Prelude.{String, ◌≡◌, refl, false, none, some, List, [], ◌∷◌, ◌++◌, if◌then◌else◌}
use async_pulse.Python.Result.{ok, err, dbapi_error}
use async_pulse.Core.Settings.{Settings}
use async_pulse.Migrations.Catalog.{uuid, primary_key, Table, Catalog, is_taken, apply, apply_all}
use async_pulse.Migrations.Versions.{required, versions}
use async_pulse.Migrations.Environment.{
  Alembic, versioned, Postgres, history, upgrades, downgrades, migration_url, include_name,
}
use async_pulse.Migrations.Head.{IsFree, downgrade_restores}
use async_pulse.Tests.Sample.{settings}

abbrev pg : Postgres Catalog
pg = record {
  catalog = λ c. c;
  exec = λ op c. elim (apply op c) [ none ↦ err dbapi_error | some d ↦ ok d ];
  create_schema_if_not_exists = λ s c. ok (record c { schemas = s ∷ c.schemas });
}

abbrev alembic : Alembic Catalog
alembic = record {
  ensure_version_table =
      λ config c. ok (record c { tables = versioned config.version_table_schema c.tables });
  pending = λ config c. history versions;
  stamp = λ config revision c.
      if is_taken config.version_table_schema "alembic_version" c.tables
      then ok c
      else err dbapi_error;
}

abbrev audit : Table
audit = record {
  schema = "public";
  name = "audit";
  columns = required "id" uuid ∷ [];
  constraints = primary_key ("id" ∷ []) ∷ [];
  indexes = [];
}

abbrev with_audit : List String → Catalog
with_audit schemas = record { schemas = schemas; tables = audit ∷ [] }

audit-IsFree : IsFree (audit ∷ [])
audit-IsFree = record {
  users = refl;
  sessions = refl;
  email_index = refl;
  username_index = refl;
  user_id_index = refl;
  no_users_reference = refl;
  no_sessions_reference = refl;
}

downgrade_restores_example :
    apply_all
      (upgrades (history versions) ++ downgrades (history versions))
      (with_audit ("public" ∷ "async-pulse" ∷ []))
    ≡ some (with_audit ("public" ∷ "async-pulse" ∷ []))
downgrade_restores_example =
    downgrade_restores (with_audit ("public" ∷ "async-pulse" ∷ [])) refl audit-IsFree

abbrev server : String → Catalog
server url = with_audit ("public" ∷ [])

abbrev direct : String
direct = "postgresql+asyncpg://direct:5432/app"

-- The default of `DB_SCHEMA`.
abbrev by_default : Settings
by_default = record settings { db_schema = "public" }

ddl_goes_direct : migration_url settings ≡ direct
unfolding migration_url
ddl_goes_direct = refl

own_schema_only : include_name settings (some "public") "schema" ≡ false
unfolding include_name
own_schema_only = refl
