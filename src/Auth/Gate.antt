-- ===== src/Auth/Gate.antt =====
-- src/modules/auth/dependencies/authentication.py and permissions.py: who may pass.
pub mod Keeps
use async_pulse.Prelude.{
  ℕ, String, ◌⧺◌, str_eq, Bool, true, false, ◌&&◌, Option, none, some, [], ◌∷◌, ltb, if◌then◌else◌,
}
use async_pulse.Python.Result.{
  Result, ok, err, Error, app, or_raise as result_or_raise, ◌>>=◌ as ◌>>>=◌,
}
use async_pulse.Python.Obj.{Obj, item, equals, to_str, is_truthy, non_empty}
use async_pulse.Db.Act.{Act, pure, raise, lift, or_raise, require, reraise, now, ◌>>=◌, ◌>>◌}
use async_pulse.Env.{Env, Payload}
use async_pulse.Env.Cached.{get_json, set_json}
use async_pulse.Shared.Security.{decode_token}
use async_pulse.Users.Entities.{
  User, UserRole, UserStatus, pending_verification, suspended, banned, eq_status, status_value,
  role_value, to_status, to_role, role_hierarchy,
}
use async_pulse.Users.Exceptions.{insufficient_permissions_error}
use async_pulse.Users.Service.{user_key, get_user_by_id}
use async_pulse.Auth.Entities.{
  SessionValidation, UserSession, validation_is_active, from_session, to_dict, from_dict,
}
use async_pulse.Auth.Repository.{get_session_by_id}
use async_pulse.Auth.Service.Sessions.{session_key, invalid_token}

-- The dict of an identity that is cached under `user:{id}`.
unfoldable pub identity_dict : User → Obj
unfolding status_value role_value
identity_dict u =
    ("id", some u.id)
    ∷ ("email", some u.email)
    ∷ ("status", some (status_value u.status))
    ∷ ("role", some (role_value u.role))
    ∷ []

-- The `User(...)` rebuilt from the cached identity, with blanks for what is not cached.
-- The program caches no null under these keys; a null status or role raises as any unknown value does.
unfoldable pub cached_user : Obj → Result User
unfolding to_status to_role
cached_user o = item "id" o >>>= λ id. item "email" o >>>= λ email. item "status" o >>>= λ status.
    to_status (to_str status) >>>= λ state. item "role" o >>>= λ role.
    to_role (to_str role) >>>= λ rank. ok (record {
      id = to_str id;
      email = to_str email;
      username = "";
      name = some "";
      hashed_password = "";
      status = state;
      role = rank;
      deleted_at = none;
      created_at = none;
      updated_at = none;
    })

-- Step 3: the states that do not pass.
unfoldable pub check_status : User → Result User
check_status u =
    if eq_status u.status pending_verification
    then err (invalid_token "User email verification is pending")
    else if eq_status u.status suspended
    then err (invalid_token "User account has been suspended")
    else if eq_status u.status banned
    then err (invalid_token "User account has been banned")
    else ok u

-- The user and the session that an access token must carry.
unfoldable pub access_claims : Payload → Result (String × String)
access_claims p =
    if equals p.type "access"
    then (if is_truthy p.sub && is_truthy p.sid
        then ok (to_str p.sub, to_str p.sid)
        else err (invalid_token "Invalid token payload"))
    else err (invalid_token "Token is not an access token")

module _ {C : Type 0} (env : Env C) where
  -- The row of a session that is not cached, which warms the cache.
  unfoldable pub warm_session : String → Option UserSession → Act C (Option SessionValidation)
  warm_session session_id none = pure none
  warm_session session_id (some s) = do
    set_json env.cache (session_key session_id) (to_dict env.codec (from_session s)) (some 3_600)
    pure (some (from_session s))

  unfoldable pub session_from_db : String → Act C (Option SessionValidation)
  unfolding warm_session
  session_from_db session_id = do full ← get_session_by_id session_id; warm_session session_id full

  unfoldable pub session_from_cache : Obj → Act C (Option SessionValidation)
  session_from_cache o = do s ← lift (from_dict env.codec o); pure (some s)

  -- Step 1, the lookup.
  unfoldable pub find_session : String → Act C (Option SessionValidation)
  find_session session_id = do
    cached ← get_json env.cache (session_key session_id)
    elim cached [
      | none ↦ session_from_db session_id
      | some o ↦ if non_empty (some o) then session_from_cache o else session_from_db session_id
    ]

  -- Step 1, the checks.
  unfoldable pub check_session : String → Option SessionValidation → Act C (Unit {0})
  check_session user_id none = raise (invalid_token "Session is invalid or has been logged out")
  check_session user_id (some s) = do
    at ← now
    require (validation_is_active at s) (invalid_token "Session is invalid or has been logged out")
    require (str_eq s.user_id user_id) (invalid_token "Session does not belong to this user")

  unfoldable pub user_from_db : String → Act C User
  user_from_db user_id = do
    found ← get_user_by_id user_id
    u ← or_raise (invalid_token "User profile not found") found
    set_json env.cache (user_key user_id) (identity_dict u) (some 3_600)
    pure u

  -- Step 2.
  unfoldable pub find_user : String → Act C User
  find_user user_id = do
    cached ← get_json env.cache (user_key user_id)
    elim cached [
      | none ↦ user_from_db user_id
      | some o ↦ if non_empty (some o) then lift (cached_user o) else user_from_db user_id
    ]

  unfoldable pub get_current_user : String → Act C User
  get_current_user authorization = do
    payload ← reraise (invalid_token "Invalid or expired token") (decode_token env authorization)
    (user_id, session_id) ← lift (access_claims payload)
    session ← find_session session_id
    check_session user_id session
    u ← find_user user_id
    lift (check_status u)

-- `RoleGuard.__call__` for a required role.
unfoldable pub require_role : UserRole → User → Result User
unfolding role_hierarchy
require_role required current =
    if ltb (role_hierarchy current.role) (role_hierarchy required)
    then err (
        app (
          insufficient_permissions_error
            ("Requires at least " ⧺ role_value required ⧺ " role permissions")))
    else ok current
