-- ===== src/Migrations/Environment.antt =====
-- alembic/env.py. The database server, and Alembic's table of what was applied, are parameters.
use async_pulse.Prelude.{
  String, str_eq, Bool, true, false, ◌≡◌, ◌≢◌, Option, none, some, List, [], ◌∷◌, ◌++◌,
  if◌then◌else◌, length, ℕ, zero, suc,
}
use async_pulse.Python.Result.{Result, ok, err, dbapi_error, ◌>>=◌}
use async_pulse.Python.Obj.{is_truthy, to_str, equals}
use async_pulse.Core.Settings.{Settings}
use async_pulse.Migrations.Catalog.{
  Op, create_table, Catalog, Table, has_schema, is_taken, apply, Column, Constraint, string,
  primary_key,
}
use async_pulse.Migrations.Versions.{Revision, required}

-- A database, what it shows of its tables, and the statements that it runs.
pub record Postgres (D : Type 0) : Type 0 where
  pub catalog : D → Catalog
  pub exec : Op → D → Result D
  pub create_schema_if_not_exists : String → D → Result D

-- What the documentation says of them: an operation does what Catalog says where that is
-- something, a table is not made in a schema that is missing, and a schema is added once.
pub record IsDocumented {D : Type 0} (pg : Postgres D) : Type 0 where
  pub applies :
      (op : Op) (d : D) (c : Catalog)
      → apply op (pg.catalog d) ≡ some c
      → (d' : D) × (pg.exec op d ≡ ok d') × (pg.catalog d' ≡ c)
  pub needs_schema :
      (n s : String) (cs : List Column) (ks : List Constraint) (d : D)
      → has_schema s (pg.catalog d) ≡ false
      → pg.exec (create_table n cs ks s) d ≡ err dbapi_error
  pub creates_schema :
      (s : String) (d : D)
      → (d' : D) × (pg.create_schema_if_not_exists s d ≡ ok d')
        × ((pg.catalog d').tables ≡ (pg.catalog d).tables)
        × (has_schema s (pg.catalog d') ≡ true)
        × ((s' : String) → s' ≢ s → has_schema s' (pg.catalog d') ≡ has_schema s' (pg.catalog d))

-- Alembic's order: from the revision without a predecessor, each time the one that revises the last.
abbrev pub next_revision : Option String → List Revision → Option Revision
next_revision p [] = none
next_revision none (r ∷ rs) =
    let rest = next_revision none rs in elim r.down_revision [ none ↦ some r | some q ↦ rest ]
next_revision (some p) (r ∷ rs) =
    let rest = next_revision (some p) rs in if equals r.down_revision p then some r else rest

abbrev pub ordered : ℕ → Option String → List Revision → List Revision
ordered zero p rs = []
ordered (suc n) p rs = elim (next_revision p rs) [
  | none ↦ []
  | some r ↦ r ∷ ordered n (some r.revision) rs
]

abbrev pub history : List Revision → List Revision
history rs = ordered (length rs) none rs

abbrev pub upgrades : List Revision → List Op
upgrades [] = []
upgrades (r ∷ rs) = r.upgrade ++ upgrades rs

-- From the last revision to the first.
abbrev pub downgrades : List Revision → List Op
downgrades [] = []
downgrades (r ∷ rs) = downgrades rs ++ r.downgrade

-- The arguments of `context.configure` beside the connection and `include_name`.
pub record Configuration : Type 0 where
  pub url : Option String
  pub version_table_schema : String
  pub include_schemas : Bool
  pub literal_binds : Bool

-- `context.run_migrations()`: Alembic makes its table `alembic_version` where that is missing, finds out
-- what remains to be applied, and records each revision after its operations.
pub record Alembic (D : Type 0) : Type 0 where
  pub ensure_version_table : Configuration → D → Result D
  pub pending : Configuration → D → List Revision
  pub stamp : Configuration → String → D → Result D

-- Alembic's own table, in the schema that `context.configure` names.
abbrev pub version_table : String → Table
version_table s = record {
  schema = s;
  name = "alembic_version";
  columns = required "version_num" (string 32) ∷ [];
  constraints = primary_key ("version_num" ∷ []) ∷ [];
  indexes = [];
}

abbrev pub versioned : String → List Table → List Table
versioned s ts = if is_taken s "alembic_version" ts then ts else version_table s ∷ ts

-- What the documentation says of it: the table is made where the schema is there and the name is free,
-- and a revision is recorded in rows of the table that is there.
pub record KeepsVersions {D : Type 0} (pg : Postgres D) (alembic : Alembic D) : Type 0 where
  pub ensures :
      (config : Configuration) (d : D)
      → has_schema config.version_table_schema (pg.catalog d) ≡ true
      → (d' : D) × (alembic.ensure_version_table config d ≡ ok d')
        × (pg.catalog d' ≡ record (pg.catalog d) {
          tables = versioned config.version_table_schema (pg.catalog d).tables;
        })
  pub stamps :
      (config : Configuration) (revision : String) (d : D)
      → is_taken config.version_table_schema "alembic_version" (pg.catalog d).tables ≡ true
      → (d' : D) × (alembic.stamp config revision d ≡ ok d') × (pg.catalog d' ≡ pg.catalog d)

module _ (settings : Settings) where
  -- `settings.DIRECT_DATABASE_URL or settings.DATABASE_URL`
  unfoldable pub migration_url : String
  migration_url =
      if is_truthy settings.direct_database_url
      then to_str settings.direct_database_url
      else settings.database_url

  unfoldable pub include_name : Option String → String → Bool
  include_name name type_ = if str_eq type_ "schema" then equals name settings.db_schema else true

  unfoldable pub offline_configuration : Configuration
  offline_configuration = record {
    url = some settings.database_url;
    version_table_schema = settings.db_schema;
    include_schemas = true;
    literal_binds = true;
  }

  unfoldable pub online_configuration : Configuration
  online_configuration = record {
    url = none;
    version_table_schema = settings.db_schema;
    include_schemas = true;
    literal_binds = false;
  }

  module _ {D : Type 0} (pg : Postgres D) (alembic : Alembic D) where
    abbrev pub exec_all : List Op → D → Result D
    exec_all [] d = ok d
    exec_all (op ∷ ops) d = pg.exec op d >>= exec_all ops

    -- The operations of each revision, and its record.
    abbrev pub run_revisions : Configuration → List Revision → D → Result D
    run_revisions config [] d = ok d
    run_revisions config (r ∷ rs) d =
        exec_all r.upgrade d >>= alembic.stamp config r.revision >>= run_revisions config rs

    abbrev pub run_migrations : Configuration → D → Result D
    run_migrations config d = alembic.ensure_version_table config d >>= λ d'.
        run_revisions config (alembic.pending config d') d'

    unfoldable pub do_run_migrations : D → Result D
    unfolding online_configuration
    do_run_migrations d = run_migrations online_configuration d

    -- One transaction on the database of the URL: after an error the server is as before.
    abbrev pub transacted : String → (String → D) → Result D → Result (Unit {0}) × (String → D)
    transacted target server (ok d) = (ok tt, λ url. if str_eq url target then d else server url)
    transacted target server (err e) = (err e, server)

    unfoldable pub run_async_migrations : (String → D) → Result (Unit {0}) × (String → D)
    unfolding migration_url do_run_migrations
    run_async_migrations server = transacted migration_url server (
        pg.create_schema_if_not_exists settings.db_schema (server migration_url)
        >>= do_run_migrations)
