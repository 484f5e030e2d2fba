-- ===== src/Auth/Service/Refresh.antt =====
-- src/modules/auth/service.py: `AuthService.refresh_token`, step by step.
use async_pulse.Prelude.{
  ℕ, ◌-◌, ◌*◌, ◌/◌, String, Bool, true, false, ◌&&◌, Option, none, some, leb, if◌then◌else◌,
}
use async_pulse.Python.Result.{Result, ok, err, ◌>>=◌ as ◌>>>=◌}
use async_pulse.Python.DateTime.{DateTime, micros, as_utc, second}
use async_pulse.Python.Obj.{Obj, item, equals, to_str, is_truthy, non_empty}
use async_pulse.Db.Act.{
  Act, pure, raise, lift, or_raise, require, suppress, suppress_or, reraise, now, uuid4, commit,
  ◌>>=◌, ◌>>◌,
}
use async_pulse.Env.{Env, Payload}
use async_pulse.Env.Cached.{get_json, set_json, delete}
use async_pulse.Shared.Security.{create_access_token, create_refresh_token, decode_token}
use async_pulse.Users.Entities.{User, eq_status, suspended, banned}
use async_pulse.Users.Service.{get_user_by_id}
use async_pulse.Auth.Entities.{UserSession, is_expired, from_session, to_dict}
use async_pulse.Auth.Repository.{create_session, get_session_by_id, update_session}
use async_pulse.Auth.Schemas.{TokenPair, token_pair, model_dump, TokenRefreshRequest}
use async_pulse.Auth.Service.Sessions.{
  session_key, grace_key, invalid_token, revoke_now, start_session,
}
use async_pulse.Auth.Service.Logout.{logout_all}

-- `_GRACE_WINDOW_MS`
abbrev pub grace_window_ms : ℕ
grace_window_ms = 30_000

-- `not user or user.status == BANNED or user.status == SUSPENDED` raises.
unfoldable pub may_refresh : Option User → Bool
may_refresh none = false
may_refresh (some u) =
    if eq_status u.status banned
    then false
    else if eq_status u.status suspended
    then false
    else true

-- The pair that a `grace:` entry holds.
unfoldable pub cached_pair : Obj → Result TokenPair
cached_pair o = item "access_token" o >>>= λ access.
    item "refresh_token" o >>>= λ refresh. ok (token_pair (to_str access) (to_str refresh))

-- The claims that a refresh token must carry: its session and its user.
unfoldable pub refresh_claims : Payload → Result (String × String)
refresh_claims p =
    if equals p.type "refresh"
    then (if is_truthy p.jti && is_truthy p.sub
        then ok (to_str p.jti, to_str p.sub)
        else err (invalid_token "Invalid token payload"))
    else err (invalid_token "Token is not a refresh token")

module _ {C : Type 0} (env : Env C) where
  -- Within the window: the pair that the winner of the race has cached, or a plain 401.
  unfoldable pub replay : String → Act C TokenPair
  replay session_id = do
    cached ← suppress_or none (get_json env.cache (grace_key session_id))
    elim cached [
      | none ↦ raise (invalid_token "Concurrent refresh — please retry")
      | some o ↦
          if non_empty (some o)
          then lift (cached_pair o)
          else raise (invalid_token "Concurrent refresh — please retry")
    ]

  -- Outside the window: every session of the user is revoked.
  unfoldable pub breach : String → Act C TokenPair
  breach user_id = do
    logout_all env user_id
    raise (invalid_token "Token reuse detected. All sessions revoked.")

  -- Step 2 of `refresh_token`. The milliseconds of the code are fractions, so the comparison is
  -- exact in microseconds; a revocation time ahead of the clock is within the window.
  unfoldable pub reuse : String → String → DateTime → Act C TokenPair
  reuse session_id user_id revoked_at = do
    at ← now
    if leb (micros at - micros (as_utc revoked_at)) (grace_window_ms * 1_000)
        then replay session_id
        else breach user_id

  -- Step 4: the old session is revoked, and a new one takes over the chain's expiry.
  unfoldable pub rotate : String → String → Option String → UserSession → Act C TokenPair
  rotate session_id user_id ip_address s = do
    old ← revoke_now s
    stored ← update_session old
    suppress (delete env.cache (session_key session_id))
    let chain_expires_at = as_utc old.expires_at
    at ← now
    let remaining_seconds = (micros chain_expires_at - micros at) / second
    new_session_id ← uuid4
    access ← create_access_token env user_id (some new_session_id)
    refresh ← create_refresh_token env user_id new_session_id (some remaining_seconds)
    new ←
        start_session new_session_id user_id chain_expires_at old.device_info ip_address
          (some old.id)
    created ← create_session new
    commit
    suppress (
        set_json env.cache (session_key new_session_id) (to_dict env.codec (from_session new))
          (some remaining_seconds))
    suppress (
        set_json env.cache (grace_key session_id) (model_dump (token_pair access refresh))
          (some (grace_window_ms / 1_000)))
    pure (token_pair access refresh)

  -- A row that is not revoked: expiry, then the account's status, then the rotation.
  unfoldable pub renew : String → String → Option String → UserSession → Act C TokenPair
  renew session_id user_id ip_address s = do
    at ← now
    require (if is_expired at s then false else true) (invalid_token "Refresh token has expired")
    found ← get_user_by_id user_id
    require (may_refresh found) (invalid_token "User account is inactive or blocked")
    rotate session_id user_id ip_address s

  unfoldable pub refresh_token : TokenRefreshRequest → Option String → Act C TokenPair
  refresh_token request ip_address = do
    payload ←
        reraise (invalid_token "Invalid or expired refresh token")
          (decode_token env request.refresh_token)
    (session_id, user_id) ← lift (refresh_claims payload)
    found ← get_session_by_id session_id
    s ← or_raise (invalid_token "Session not found") found
    elim s.revoked_at [
      | some revoked_at ↦ reuse session_id user_id revoked_at
      | none ↦ renew session_id user_id ip_address s
    ]
