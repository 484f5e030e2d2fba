-- ===== src/Migrations/Head.antt =====
-- What the revisions of alembic/versions make of a database, from nothing to the head and back.
use async_pulse.Prelude.{
  str_eq, true, false, ◌≡◌, refl, ◌∙◌, some, List, [], ◌∷◌, ◌++◌, drop, select, not, ◌||◌,
}
use async_pulse.Migrations.Catalog.{
  uuid, integer, timestamptz, string, enum_, primary_key, foreign_key, apply_all-next,
  apply_all-append, Index, Table, Catalog, has_schema, is_taken, is_referenced, apply, apply_all,
}
use async_pulse.Migrations.Versions.{
  required, optional, status_labels, role_labels, initial_upgrade, initial_downgrade,
  drop_hash_upgrade, drop_hash_downgrade, add_name_upgrade, add_name_downgrade, initial_schema,
  drop_hash, add_name, versions,
}
use async_pulse.Migrations.Metadata.{column_index}
use async_pulse.Migrations.Environment.{history, upgrades, downgrades}

-- No table or index has one of the names, and no table refers to the two.
pub record IsFree (ts : List Table) : Type 0 where
  pub users : is_taken "async-pulse" "users" ts ≡ false
  pub sessions : is_taken "async-pulse" "sessions" ts ≡ false
  pub email_index : is_taken "async-pulse" "ix_async-pulse_users_email" ts ≡ false
  pub username_index : is_taken "async-pulse" "ix_async-pulse_users_username" ts ≡ false
  pub user_id_index : is_taken "async-pulse" "ix_async-pulse_sessions_user_id" ts ≡ false
  pub no_users_reference : is_referenced "async-pulse" "users" ts ≡ false
  pub no_sessions_reference : is_referenced "async-pulse" "sessions" ts ≡ false

pub history_of_versions : history versions ≡ initial_schema ∷ drop_hash ∷ add_name ∷ []
unfolding versions
history_of_versions = refl

-- The tables after the first revision, and what the later ones make of them.
abbrev pub initial_users : Table
initial_users = record {
  schema = "async-pulse";
  name = "users";
  columns =
      required "id" uuid
      ∷ required "email" (string 255)
      ∷ required "username" (string 100)
      ∷ required "hashed_password" (string 255)
      ∷ required "status" (enum_ status_labels 50)
      ∷ required "role" (enum_ role_labels 50)
      ∷ optional "deleted_at" timestamptz
      ∷ required "created_at" timestamptz
      ∷ required "updated_at" timestamptz
      ∷ [];
  constraints = primary_key ("id" ∷ []) ∷ [];
  indexes =
      column_index "async-pulse" "users" "email"
      ∷ column_index "async-pulse" "users" "username"
      ∷ [];
}

abbrev pub initial_sessions : Table
initial_sessions = record {
  schema = "async-pulse";
  name = "sessions";
  columns =
      required "id" uuid
      ∷ required "user_id" uuid
      ∷ required "refresh_token_hash" (string 255)
      ∷ optional "device_info" (string 255)
      ∷ optional "ip_address" (string 45)
      ∷ required "created_at" timestamptz
      ∷ required "expires_at" timestamptz
      ∷ optional "revoked_at" timestamptz
      ∷ optional "previous_session_id" uuid
      ∷ required "rotation_counter" integer
      ∷ [];
  constraints =
      foreign_key ("previous_session_id" ∷ []) "async-pulse" "sessions" "id" "SET NULL"
      ∷ foreign_key ("user_id" ∷ []) "async-pulse" "users" "id" "CASCADE"
      ∷ primary_key ("id" ∷ [])
      ∷ [];
  indexes = record (column_index "async-pulse" "sessions" "user_id") { unique = false } ∷ [];
}

abbrev unindexed_sessions : Table
unindexed_sessions = record initial_sessions { indexes = [] }

-- What the two later revisions leave, and what downgrading them leaves.
abbrev pub head_users : Table
head_users = record initial_users {
  columns = initial_users.columns ++ optional "name" (string 100) ∷ [];
}

abbrev pub head_sessions : Table
head_sessions = record initial_sessions {
  columns =
      select (λ d. not (str_eq d.name "refresh_token_hash" || str_eq d.name "rotation_counter"))
        initial_sessions.columns;
}

abbrev restored_sessions : Table
restored_sessions = record head_sessions {
  columns =
      head_sessions.columns
      ++ record (required "rotation_counter" integer) { server_default = some "0" }
        ∷ record (required "refresh_token_hash" (string 255)) { server_default = some "" }
        ∷ [];
}

abbrev pub two_tables : Table → Table → Catalog → Catalog
two_tables s u c = record c { tables = s ∷ u ∷ c.tables }

module _ (c : Catalog) (schema : has_schema "async-pulse" c ≡ true) (free : IsFree c.tables) where
  -- The catalogue while the first revision runs.
  abbrev with_users : List Index → Catalog
  with_users is = record c { tables = record initial_users { indexes = is } ∷ c.tables }

  abbrev email_index : Index
  email_index = column_index "async-pulse" "users" "email"

  create_users : apply_all initial_upgrade c ≡ apply_all (drop 1 initial_upgrade) (with_users [])
  unfolding apply initial_upgrade
  create_users = apply_all-next _ _ c _ (rw (schema, free.users) refl)

  index_users :
      apply_all (drop 1 initial_upgrade) (with_users [])
      ≡ apply_all (drop 3 initial_upgrade) (with_users initial_users.indexes)
  unfolding apply initial_upgrade
  index_users =
      apply_all-next _ _ (with_users []) (with_users (email_index ∷ []))
        (rw (free.email_index) refl)
      ∙ apply_all-next _ _ (with_users (email_index ∷ [])) (with_users initial_users.indexes)
          (rw (free.username_index) refl)

  create_sessions :
      apply_all (drop 3 initial_upgrade) (with_users initial_users.indexes)
      ≡ apply_all (drop 4 initial_upgrade) (two_tables unindexed_sessions initial_users c)
  unfolding apply initial_upgrade
  create_sessions =
      apply_all-next _ _ (with_users initial_users.indexes) _ (rw (schema, free.sessions) refl)

  index_sessions :
      apply_all (drop 4 initial_upgrade) (two_tables unindexed_sessions initial_users c)
      ≡ some (two_tables initial_sessions initial_users c)
  unfolding apply apply_all initial_upgrade
  index_sessions = rw (free.user_id_index) refl

  pub initial_upgrade-applied :
      apply_all initial_upgrade c ≡ some (two_tables initial_sessions initial_users c)
  initial_upgrade-applied = create_users ∙ index_users ∙ create_sessions ∙ index_sessions

  pub drop_hash-applied :
      apply_all drop_hash_upgrade (two_tables initial_sessions initial_users c)
      ≡ some (two_tables head_sessions initial_users c)
  unfolding apply_all apply drop_hash_upgrade
  drop_hash-applied = refl

  pub add_name-applied :
      apply_all add_name_upgrade (two_tables head_sessions initial_users c)
      ≡ some (two_tables head_sessions head_users c)
  unfolding apply_all apply add_name_upgrade
  add_name-applied = refl

  pub upgrade_head-applied :
      apply_all (upgrades (history versions)) c ≡ some (two_tables head_sessions head_users c)
  unfolding apply_all apply versions
  upgrade_head-applied =
      apply_all-append initial_upgrade (drop_hash_upgrade ++ add_name_upgrade ++ []) c
      ∙ rw (initial_upgrade-applied) refl

  drop_sessions :
      apply_all initial_downgrade (two_tables restored_sessions initial_users c)
      ≡ apply_all (drop 2 initial_downgrade) (with_users initial_users.indexes)
  unfolding apply initial_downgrade
  drop_sessions =
      apply_all-next _ _ _ (two_tables (record restored_sessions { indexes = [] }) initial_users c)
        refl
      ∙ apply_all-next _ _ _ _ (rw (free.no_sessions_reference) refl)

  drop_users : apply_all (drop 2 initial_downgrade) (with_users initial_users.indexes) ≡ some c
  unfolding apply apply_all initial_downgrade
  drop_users = rw (free.no_users_reference) refl

  downgrade_base-applied :
      apply_all (downgrades (history versions)) (two_tables head_sessions head_users c) ≡ some c
  unfolding apply_all apply versions
  downgrade_base-applied =
      apply_all-append (add_name_downgrade ++ drop_hash_downgrade) initial_downgrade
        (two_tables head_sessions head_users c)
      ∙ drop_sessions
      ∙ drop_users

  -- Upgrading to the head and downgrading to the base leaves the tables as they were, where the
  -- schema is there and the names of the tables and indexes are free.
  pub downgrade_restores :
      apply_all (upgrades (history versions) ++ downgrades (history versions)) c ≡ some c
  downgrade_restores =
      apply_all-append (upgrades (history versions)) (downgrades (history versions)) c
      ∙ rw (upgrade_head-applied) downgrade_base-applied
