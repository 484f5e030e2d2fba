-- ===== src/Auth/Service/Login.antt =====
-- src/modules/auth/service.py: `AuthService.authenticate`, step by step.
use async_pulse.Prelude.{
  ◌+◌, ◌-◌, ◌*◌, String, Option, none, some, List, [], ◌∷◌, leb, length, take, if◌then◌else◌,
}
use async_pulse.Python.Result.{Result, ok, err, app}
use async_pulse.Python.DateTime.{aware, micros, days}
use async_pulse.Db.Act.{Act, pure, raise, lift, require, suppress, now, uuid4, commit, ◌>>=◌, ◌>>◌}
use async_pulse.Env.{Env}
use async_pulse.Env.Cached.{set_json, delete}
use async_pulse.Shared.Security.{verify_password, create_access_token, create_refresh_token}
use async_pulse.Users.Entities.{User, eq_status, suspended, banned}
use async_pulse.Users.Exceptions.{user_suspended_error, user_banned_error}
use async_pulse.Users.Service.{get_user_by_email}
use async_pulse.Auth.Entities.{UserSession, from_session, to_dict}
use async_pulse.Auth.Exceptions.{invalid_credentials_error}
use async_pulse.Auth.Repository.{create_session, get_active_sessions_for_user, update_session}
use async_pulse.Auth.Schemas.{token_pair, user_info, LoginResponse}
use async_pulse.Auth.Service.Sessions.{session_key, revoke_now, start_session}

-- The account states that may not log in.
unfoldable pub check_login_status : User → Result User
check_login_status u =
    if eq_status u.status suspended
    then err (app (user_suspended_error none))
    else if eq_status u.status banned
    then err (app (user_banned_error none))
    else ok u

module _ {C : Type 0} (env : Env C) where
  -- `if not user or not verify_password(...)`
  unfoldable pub check_credentials : String → Option User → Act C User
  check_credentials password none = raise (app (invalid_credentials_error none))
  check_credentials password (some u) = do
    valid ← verify_password env password u.hashed_password
    require valid (app (invalid_credentials_error none))
    pure u

  -- The loop over `to_revoke`.
  unfoldable pub revoke_oldest : List UserSession → Act C (Unit {0})
  revoke_oldest [] = pure tt
  revoke_oldest (s ∷ rest) = do
    old ← revoke_now s
    stored ← update_session old
    suppress (delete env.cache (session_key old.id))
    revoke_oldest rest

  -- At most four active sessions stay.
  unfoldable pub enforce_limit : List UserSession → Act C (Unit {0})
  unfolding revoke_oldest
  enforce_limit active =
      if leb 5 (length active) then revoke_oldest (take (length active - 4) active) else pure tt

  -- From `session_id = str(uuid.uuid4())` on.
  unfoldable pub open_session : User → Option String → Option String → Act C LoginResponse
  open_session u device_info ip_address = do
    session_id ← uuid4
    at ← now
    let expires_at = aware (micros at + days env.settings.refresh_token_expire_days)
    access ← create_access_token env u.id (some session_id)
    refresh ← create_refresh_token env u.id session_id none
    session ← start_session session_id u.id expires_at device_info ip_address none
    stored ← create_session session
    commit
    suppress (
        set_json env.cache (session_key session_id) (to_dict env.codec (from_session session))
          (some (env.settings.refresh_token_expire_days * 86_400)))
    info ← lift (user_info u)
    pure (record { user_info = info; token_pair = token_pair access refresh })

  unfoldable pub authenticate :
      String → String → Option String → Option String → Act C LoginResponse
  authenticate address password device_info ip_address = do
    found ← get_user_by_email address
    known ← check_credentials password found
    u ← lift (check_login_status known)
    active ← get_active_sessions_for_user u.id
    enforce_limit active
    open_session u device_info ip_address
