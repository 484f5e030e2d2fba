-- ===== src/Migrations/Runs.antt =====
-- What alembic/env.py runs: the operations of the revisions, each with its record.
use async_pulse.Prelude.{
  Bool, if◌then◌else◌, true, false, ◌≡◌, refl, sym, subst, ◌∙◌, Option, none, some, List, [], ◌∷◌,
  arith,
}
use async_pulse.Python.Result.{ok}
use async_pulse.Core.Settings.{Settings}
use async_pulse.Migrations.Catalog
use async_pulse.Migrations.Catalog.{
  ColumnType, enum_, string, Column, Op, Constraint, Index, Table, Catalog, has_schema, is_taken,
  apply, apply_all,
}
use async_pulse.Migrations.Versions.{Revision, initial_schema, drop_hash, add_name, versions}
use async_pulse.Migrations.Environment.{
  Postgres, IsDocumented, Configuration, history, exec_all, Alembic, KeepsVersions, version_table,
  versioned, run_revisions,
}
use async_pulse.Migrations.Head.{
  IsFree, initial_users, initial_sessions, head_users, head_sessions, two_tables,
  initial_upgrade-applied, drop_hash-applied, add_name-applied,
}

pub versioned-IsFree : (ts : List Table) → IsFree ts → IsFree (versioned "async-pulse" ts)
versioned-IsFree ts free = here (is_taken "async-pulse" "alembic_version" ts)
  where
    here : (b : Bool) → IsFree (if b then ts else version_table "async-pulse" ∷ ts)
    here true = free
    here false = record {
      users = free.users;
      sessions = free.sessions;
      email_index = free.email_index;
      username_index = free.username_index;
      user_id_index = free.user_id_index;
      no_users_reference = free.no_users_reference;
      no_sessions_reference = free.no_sessions_reference;
    }

pub versioned-is_taken :
    (ts : List Table) → is_taken "async-pulse" "alembic_version" (versioned "async-pulse" ts) ≡ true
versioned-is_taken ts = ground arith

module _ {D : Type 0} (settings : Settings) (pg : Postgres D) (doc : IsDocumented pg)
    (alembic : Alembic D) (keeps : KeepsVersions pg alembic) where
  exec_all-applies :
      (ops : List Op) (d : D) (c : Catalog)
      → apply_all ops (pg.catalog d) ≡ some c
      → (d' : D) × (exec_all settings pg alembic ops d ≡ ok d') × (pg.catalog d' ≡ c)
  unfolding apply_all
  exec_all-applies [] d c h = (d, refl, ground (arith, h))
  exec_all-applies (op ∷ ops) d c h =
      through (apply op (pg.catalog d)) refl h (λ d₁. exec_all-applies ops d₁ c)
    where
      through :
          (o : Option Catalog)
          → apply op (pg.catalog d) ≡ o
          → Catalog.◌>>=◌ o (apply_all ops) ≡ some c
          → ((d₁ : D)
              → apply_all ops (pg.catalog d₁) ≡ some c
              → (d' : D) × (exec_all settings pg alembic ops d₁ ≡ ok d') × (pg.catalog d' ≡ c))
          → (d' : D) × (exec_all settings pg alembic (op ∷ ops) d ≡ ok d') × (pg.catalog d' ≡ c)
      through none e h ih = cc
      through (some c₁) e h ih =
          let (d₁, done, shows) = doc.applies op d c₁ e in
          let (d₂, all_done, at_end) = ih d₁ (rw (shows) h) in (d₂, rw (done) all_done, at_end)

  -- One revision, on a database where the version table is, before and after.
  run_revisions-next :
      (config : Configuration) (r : Revision) (rs : List Revision) (d : D) (c : Catalog)
      → apply_all r.upgrade (pg.catalog d) ≡ some c
      → is_taken config.version_table_schema "alembic_version" c.tables ≡ true
      → (d' : D) × (run_revisions settings pg alembic config (r ∷ rs) d
          ≡ run_revisions settings pg alembic config rs d')
        × (pg.catalog d' ≡ c)
  run_revisions-next config r rs d c applied there =
      let (d₁, done, at_end) = exec_all-applies r.upgrade d c applied in
      let (d₂, stamped, kept) = keeps.stamps config r.revision d₁ (rw (at_end) there) in
      (d₂, rw (done, stamped) refl, kept ∙ at_end)

  -- The three revisions, one after another.
  pub run_history :
      (config : Configuration) (d : D)
      → config.version_table_schema ≡ "async-pulse"
      → has_schema "async-pulse" (pg.catalog d) ≡ true
      → IsFree (pg.catalog d).tables
      → is_taken "async-pulse" "alembic_version" (pg.catalog d).tables ≡ true
      → (d' : D) × (run_revisions settings pg alembic config (history versions) d ≡ ok d')
        × (pg.catalog d' ≡ two_tables head_sessions head_users (pg.catalog d))
  unfolding versions initial_schema drop_hash add_name
  run_history config d named schema free there =
      let c = pg.catalog d in
      let (d₁, first, is₁) =
        run_revisions-next config initial_schema (drop_hash ∷ add_name ∷ []) d
          (two_tables initial_sessions initial_users c) (initial_upgrade-applied c schema free)
          (still initial_sessions initial_users there) in
      let (d₂, second, is₂) =
        run_revisions-next config drop_hash (add_name ∷ []) d₁
          (two_tables head_sessions initial_users c) (rw (is₁) (drop_hash-applied c schema free))
          (still head_sessions initial_users there) in
      let (d₃, third, is₃) =
        run_revisions-next config add_name [] d₂ (two_tables head_sessions head_users c)
          (rw (is₂) (add_name-applied c schema free)) (still head_sessions head_users there) in
      (d₃, first ∙ second ∙ third, is₃)
    where
      still :
          (s u : Table)
          → is_taken "async-pulse" "alembic_version" (two_tables s u (pg.catalog d)).tables ≡ true
          → is_taken config.version_table_schema "alembic_version"
              (two_tables s u (pg.catalog d)).tables
            ≡ true
      still s u h =
          subst (λ n. is_taken n "alembic_version" (two_tables s u (pg.catalog d)).tables ≡ true)
            (sym named) h
