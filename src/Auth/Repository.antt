-- ===== src/Auth/Repository.antt =====
-- src/modules/auth/repository.py: the methods of `AuthRepository`.
pub mod Writes
use mathlib.Core.Option
use async_pulse.Prelude.{
  String, str_eq, Bool, ◌&&◌, not, Option, none, some, List, [], ◌∷◌, ◌++◌, map, leb, select,
  update_where, sort_by, if◌then◌else◌,
}
use async_pulse.Python.DateTime.{DateTime, micros, later}
use async_pulse.Db.Tables.{Tables, merge_row}
use async_pulse.Db.Rows.{scalar_one_or_none}
use async_pulse.Db.Act.{Act, pure, lift, query, write, now, flush, ◌>>=◌, ◌>>◌}
use async_pulse.Auth.Models.{SessionModel}
use async_pulse.Auth.Entities.{UserSession, is_some}

-- `_to_session_entity`
unfoldable pub to_session_entity : SessionModel → UserSession
to_session_entity m = record {
  id = m.id;
  user_id = m.user_id;
  expires_at = m.expires_at;
  device_info = m.device_info;
  ip_address = m.ip_address;
  created_at = m.created_at;
  revoked_at = m.revoked_at;
  previous_session_id = m.previous_session_id;
}

-- The `SessionModel(...)` that `create_session` and `update_session` build.
unfoldable pub to_session_model : UserSession → SessionModel
to_session_model s = record {
  id = s.id;
  user_id = s.user_id;
  device_info = s.device_info;
  ip_address = s.ip_address;
  created_at = s.created_at;
  expires_at = s.expires_at;
  revoked_at = s.revoked_at;
  previous_session_id = s.previous_session_id;
}

-- `session.add(model)`
abbrev pub add_session : SessionModel → Tables → Tables
add_session m t = record t { sessions = t.sessions ++ m ∷ [] }

-- `session.merge(model)`
abbrev pub merge_session : SessionModel → Tables → Tables
merge_session m t = record t { sessions = merge_row m t.sessions }

abbrev pub has_id : String → SessionModel → Bool
has_id session_id m = str_eq m.id session_id

-- The `WHERE` clauses of the two queries by user.
abbrev pub is_active_row : String → DateTime → SessionModel → Bool
is_active_row user_id at m =
    str_eq m.user_id user_id && not (is_some m.revoked_at) && later m.expires_at at

abbrev pub is_unrevoked_row : String → SessionModel → Bool
is_unrevoked_row user_id m = str_eq m.user_id user_id && not (is_some m.revoked_at)

abbrev pub created_before : SessionModel → SessionModel → Bool
created_before a b = leb (micros a.created_at) (micros b.created_at)

abbrev pub set_revoked : DateTime → SessionModel → SessionModel
set_revoked at m = record m { revoked_at = some at }

module _ {C : Type 0} where
  unfoldable pub create_session : UserSession → Act C UserSession
  create_session s = do
    write (add_session (to_session_model s))
    flush
    pure (to_session_entity (to_session_model s))

  unfoldable pub get_session_by_id : String → Act C (Option UserSession)
  get_session_by_id session_id = do
    rows ← query (λ t. select (has_id session_id) t.sessions)
    model ← lift (scalar_one_or_none rows)
    pure (Option.map to_session_entity model)

  unfoldable pub get_active_sessions_for_user : String → Act C (List UserSession)
  get_active_sessions_for_user user_id = do
    at ← now
    models ← query (λ t. sort_by created_before (select (is_active_row user_id at) t.sessions))
    pure (map to_session_entity models)

  unfoldable pub update_session : UserSession → Act C UserSession
  update_session s = do
    write (merge_session (to_session_model s))
    flush
    pure (to_session_entity (to_session_model s))

  unfoldable pub revoke_all_sessions : String → Act C (Unit {0})
  revoke_all_sessions user_id = do
    at ← now
    write (λ t. record t {
      sessions = update_where (is_unrevoked_row user_id) (set_revoked at) t.sessions;
    })
    flush
