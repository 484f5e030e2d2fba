-- ===== src/Auth/Router.antt =====
-- src/modules/auth/router.py: the handlers, and what they do to the refresh cookie of the response.
pub mod Laws
pub mod Finality
use async_pulse.Prelude.{ℕ, ◌*◌, String, Bool, true, false, Option, none, some, if◌then◌else◌}
use async_pulse.Python.Result.{Result, ok, err}
use async_pulse.Python.Obj.{is_truthy, to_str}
use async_pulse.Db.Act.{Act, pure, raise, suppress, in_session, ◌>>=◌, ◌>>◌}
use async_pulse.Env.{Env}
use async_pulse.Shared.Security.{decode_token}
use async_pulse.Users.Entities.{User}
use async_pulse.Auth.Schemas.{TokenPair, TokenRefreshRequest, LoginResponse}
use async_pulse.Auth.Service.Sessions.{invalid_token}
use async_pulse.Auth.Service.Login.{authenticate}
use async_pulse.Auth.Service.Refresh
use async_pulse.Auth.Service.Logout
use async_pulse.Auth.Gate.{get_current_user}

-- The arguments of `set_cookie`, and of `delete_cookie`.
pub data Cookie : Type 0 where
  set_cookie :
      (key value : String) (max_age : ℕ) (path : String) (domain : Option String)
      (secure httponly : Bool) (samesite : String)
      → Cookie
  delete_cookie : (key path : String) (domain : Option String) → Cookie

-- `login` takes these from the request.
pub record LoginRequest : Type 0 where
  pub email : String
  pub password : String

module _ {C : Type 0} (env : Env C) where
  -- `_set_refresh_cookie` and `_clear_refresh_cookie`
  unfoldable pub refresh_cookie : String → Cookie
  refresh_cookie token =
      set_cookie env.settings.refresh_cookie_name token
        (env.settings.refresh_token_expire_days * 86_400) env.settings.refresh_cookie_path
        env.settings.refresh_cookie_domain env.settings.refresh_cookie_secure
        env.settings.refresh_cookie_httponly env.settings.refresh_cookie_samesite

  unfoldable pub cleared_cookie : Cookie
  cleared_cookie =
      delete_cookie env.settings.refresh_cookie_name env.settings.refresh_cookie_path
        env.settings.refresh_cookie_domain

  unfoldable pub login :
      LoginRequest → Option String → Option String → Act C (LoginResponse × Cookie)
  unfolding refresh_cookie
  login payload device_info ip_address = do
    response ← authenticate env payload.email payload.password device_info ip_address
    pure (response, refresh_cookie response.token_pair.refresh_token)

  -- The token of a non-empty body, or else of the cookie.
  unfoldable pub token_str : Option TokenRefreshRequest → Option String → Option String
  token_str none cookie = cookie
  token_str (some body) cookie =
      if is_truthy (some body.refresh_token) then some body.refresh_token else cookie

  unfoldable pub refresh_token :
      Option TokenRefreshRequest → Option String → Option String → Act C (TokenPair × Cookie)
  unfolding token_str refresh_cookie
  refresh_token body cookie ip_address =
      if is_truthy (token_str body cookie)
      then (do
        pair ←
            Refresh.refresh_token env (record { refresh_token = to_str (token_str body cookie) })
              ip_address
        pure (pair, refresh_cookie pair.refresh_token))
      else raise (invalid_token "Refresh token not provided")

  -- The body of the `try` in `logout`.
  unfoldable pub logout_presented : String → Act C (Unit {0})
  logout_presented authorization = do
    payload ← decode_token env authorization
    if is_truthy payload.sid then Logout.logout env (to_str payload.sid) else pure tt

  unfoldable pub logout : String → Act C Cookie
  unfolding logout_presented cleared_cookie
  logout authorization = suppress (logout_presented authorization) >> pure cleared_cookie

  unfoldable pub logout_all : User → Act C Cookie
  unfolding cleared_cookie
  logout_all current_user = Logout.logout_all env current_user.id >> pure cleared_cookie
