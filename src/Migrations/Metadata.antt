-- ===== src/Migrations/Metadata.antt =====
-- `Base.metadata` of src/db/base.py, with the two models: the tables that the ORM expects, in the
-- schema of the settings. `str` without `None` is NOT NULL, `index` and `unique` make one unique
-- index, and a foreign key refers to a table of the same schema.
use async_pulse.Prelude.{String, ◌⧺◌, true, false, List, [], ◌∷◌}
use async_pulse.Migrations.Catalog.{
  uuid, timestamptz, string, enum_, primary_key, foreign_key, Index, Table,
}
use async_pulse.Migrations.Versions.{required, optional}

abbrev pub column_index : String → String → String → Index
column_index schema table column = record {
  name = "ix_" ⧺ schema ⧺ "_" ⧺ table ⧺ "_" ⧺ column;
  columns = column ∷ [];
  unique = true;
}

-- The labels of `SQLEnum(UserStatus)` are the names of the members.
unfoldable pub users_table : String → Table
users_table schema = record {
  schema = schema;
  name = "users";
  columns =
      required "id" uuid
      ∷ required "email" (string 255)
      ∷ optional "name" (string 100)
      ∷ required "username" (string 100)
      ∷ required "hashed_password" (string 255)
      ∷ required "status"
          (enum_ ("PENDING_VERIFICATION" ∷ "ACTIVE" ∷ "SUSPENDED" ∷ "BANNED" ∷ []) 50)
      ∷ required "role" (enum_ ("USER" ∷ "ADMIN" ∷ "SUPERUSER" ∷ []) 50)
      ∷ optional "deleted_at" timestamptz
      ∷ required "created_at" timestamptz
      ∷ required "updated_at" timestamptz
      ∷ [];
  constraints = primary_key ("id" ∷ []) ∷ [];
  indexes = column_index schema "users" "email" ∷ column_index schema "users" "username" ∷ [];
}

unfoldable pub sessions_table : String → Table
sessions_table schema = record {
  schema = schema;
  name = "sessions";
  columns =
      required "id" uuid
      ∷ required "user_id" uuid
      ∷ optional "device_info" (string 255)
      ∷ optional "ip_address" (string 45)
      ∷ required "created_at" timestamptz
      ∷ required "expires_at" timestamptz
      ∷ optional "revoked_at" timestamptz
      ∷ optional "previous_session_id" uuid
      ∷ [];
  constraints =
      primary_key ("id" ∷ [])
      ∷ foreign_key ("user_id" ∷ []) schema "users" "id" "CASCADE"
      ∷ foreign_key ("previous_session_id" ∷ []) schema "sessions" "id" "SET NULL"
      ∷ [];
  indexes = record (column_index schema "sessions" "user_id") { unique = false } ∷ [];
}

-- `target_metadata` of src/db/registry.py.
unfoldable pub target_metadata : String → List Table
unfolding users_table sessions_table
target_metadata schema = sessions_table schema ∷ users_table schema ∷ []
