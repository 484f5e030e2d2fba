-- ===== src/Migrations/Versions.antt =====
-- alembic/versions/: each revision with the operations of its `upgrade` and its `downgrade`.
use async_pulse.Prelude.{String, true, false, Option, none, some, List, [], ◌∷◌}
use async_pulse.Migrations.Catalog.{
  ColumnType, uuid, integer, timestamptz, string, enum_, Column, primary_key, foreign_key, Op,
  create_table, drop_table, add_column, drop_column, create_index, drop_index,
}

pub record Revision : Type 0 where
  pub revision : String
  pub down_revision : Option String
  pub upgrade : List Op
  pub downgrade : List Op

-- `sa.Column(name, type, nullable=...)`
abbrev pub required : String → ColumnType → Column
required name type_ = record { name = name; type_ = type_; nullable = false; server_default = none }

abbrev pub optional : String → ColumnType → Column
optional name type_ = record { name = name; type_ = type_; nullable = true; server_default = none }

abbrev pub status_labels : List String
status_labels = "pending_verification" ∷ "active" ∷ "suspended" ∷ "banned" ∷ []

abbrev pub role_labels : List String
role_labels = "user" ∷ "admin" ∷ "superuser" ∷ []

unfoldable pub initial_upgrade : List Op
initial_upgrade =
    create_table "users"
      (required "id" uuid
        ∷ required "email" (string 255)
        ∷ required "username" (string 100)
        ∷ required "hashed_password" (string 255)
        ∷ required "status" (enum_ status_labels 50)
        ∷ required "role" (enum_ role_labels 50)
        ∷ optional "deleted_at" timestamptz
        ∷ required "created_at" timestamptz
        ∷ required "updated_at" timestamptz
        ∷ [])
      (primary_key ("id" ∷ []) ∷ []) "async-pulse"
    ∷ create_index "ix_async-pulse_users_email" "users" ("email" ∷ []) true "async-pulse"
    ∷ create_index "ix_async-pulse_users_username" "users" ("username" ∷ []) true "async-pulse"
    ∷ create_table "sessions"
        (required "id" uuid
          ∷ required "user_id" uuid
          ∷ required "refresh_token_hash" (string 255)
          ∷ optional "device_info" (string 255)
          ∷ optional "ip_address" (string 45)
          ∷ required "created_at" timestamptz
          ∷ required "expires_at" timestamptz
          ∷ optional "revoked_at" timestamptz
          ∷ optional "previous_session_id" uuid
          ∷ required "rotation_counter" integer
          ∷ [])
        (foreign_key ("previous_session_id" ∷ []) "async-pulse" "sessions" "id" "SET NULL"
          ∷ foreign_key ("user_id" ∷ []) "async-pulse" "users" "id" "CASCADE"
          ∷ primary_key ("id" ∷ [])
          ∷ [])
        "async-pulse"
    ∷ create_index "ix_async-pulse_sessions_user_id" "sessions" ("user_id" ∷ []) false "async-pulse"
    ∷ []

unfoldable pub initial_downgrade : List Op
initial_downgrade =
    drop_index "ix_async-pulse_sessions_user_id" "sessions" "async-pulse"
    ∷ drop_table "sessions" "async-pulse"
    ∷ drop_index "ix_async-pulse_users_username" "users" "async-pulse"
    ∷ drop_index "ix_async-pulse_users_email" "users" "async-pulse"
    ∷ drop_table "users" "async-pulse"
    ∷ []

unfoldable pub drop_hash_upgrade : List Op
drop_hash_upgrade =
    drop_column "sessions" "refresh_token_hash" "async-pulse"
    ∷ drop_column "sessions" "rotation_counter" "async-pulse"
    ∷ []

unfoldable pub drop_hash_downgrade : List Op
drop_hash_downgrade =
    add_column "sessions"
      (record (required "rotation_counter" integer) { server_default = some "0" }) "async-pulse"
    ∷ add_column "sessions"
        (record (required "refresh_token_hash" (string 255)) { server_default = some "" })
        "async-pulse"
    ∷ []

unfoldable pub add_name_upgrade : List Op
add_name_upgrade = add_column "users" (optional "name" (string 100)) "async-pulse" ∷ []

unfoldable pub add_name_downgrade : List Op
add_name_downgrade = drop_column "users" "name" "async-pulse" ∷ []

unfoldable pub initial_schema : Revision
unfolding initial_upgrade initial_downgrade
initial_schema = record {
  revision = "80f2ee816ce9";
  down_revision = none;
  upgrade = initial_upgrade;
  downgrade = initial_downgrade;
}

unfoldable pub drop_hash : Revision
unfolding drop_hash_upgrade drop_hash_downgrade
drop_hash = record {
  revision = "5ef995cd334d";
  down_revision = some "80f2ee816ce9";
  upgrade = drop_hash_upgrade;
  downgrade = drop_hash_downgrade;
}

unfoldable pub add_name : Revision
unfolding add_name_upgrade add_name_downgrade
add_name = record {
  revision = "70d631c75e08";
  down_revision = some "5ef995cd334d";
  upgrade = add_name_upgrade;
  downgrade = add_name_downgrade;
}

-- The files of the directory, in the order of their names.
unfoldable pub versions : List Revision
unfolding initial_schema drop_hash add_name
versions = drop_hash ∷ add_name ∷ initial_schema ∷ []
