-- ===== src/Shared/Security.antt =====
-- src/shared/security.py, and the claim types of src/shared/constants.py.
use async_pulse.Prelude.{ℕ, ◌+◌, ◌*◌, String, str_eq, Bool, Option, none, some, if◌then◌else◌}
use async_pulse.Python.Result.{value_error, jwt_error}
use async_pulse.Python.DateTime.{micros, second, minutes, days}
use async_pulse.Python.Obj.{is_truthy}
use async_pulse.Db.Act.{Act, pure, or_raise, now, draw, ◌>>=◌}
use async_pulse.Env.{Env, Payload}

-- The dict that `_create_token` signs.
unfoldable pub claims : String → ℕ → String → Option String → Payload
claims subject expire token_type session_id = record {
  sub = some subject;
  exp = expire;
  type = some token_type;
  jti =
      if is_truthy session_id
      then (if str_eq token_type "refresh" then session_id else none)
      else none;
  sid =
      if is_truthy session_id
      then (if str_eq token_type "refresh" then none else session_id)
      else none;
}

module _ {C : Type 0} (env : Env C) where
  unfoldable pub hash_password : String → Act C String
  hash_password password = do
    n ← draw
    or_raise value_error (env.bcrypt.hashpw password (env.bcrypt.gensalt n))

  unfoldable pub verify_password : String → String → Act C Bool
  verify_password plain_password hashed_password =
      or_raise value_error (env.bcrypt.checkpw plain_password hashed_password)

  -- `_create_token`
  unfoldable pub create_token : String → ℕ → String → Option String → Act C String
  unfolding claims
  create_token subject expires_delta token_type session_id = do
    t ← now
    pure (
        env.jwt.encode (claims subject (micros t + expires_delta) token_type session_id)
          env.settings.secret_key)

  unfoldable pub create_access_token : String → Option String → Act C String
  create_access_token subject session_id =
      create_token subject (minutes env.settings.access_token_expire_minutes) "access" session_id

  refresh_lifetime : Option ℕ → ℕ
  refresh_lifetime none = days env.settings.refresh_token_expire_days
  refresh_lifetime (some expires_in) = expires_in * second

  unfoldable pub create_refresh_token : String → String → Option ℕ → Act C String
  unfolding refresh_lifetime
  create_refresh_token subject session_id expires_in =
      create_token subject (refresh_lifetime expires_in) "refresh" (some session_id)

  unfoldable pub decode_token : String → Act C Payload
  decode_token token = do
    t ← now
    or_raise jwt_error (env.jwt.decode (micros t) token env.settings.secret_key)
