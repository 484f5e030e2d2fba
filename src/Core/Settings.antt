-- ===== src/Core/Settings.antt =====
-- src/core/settings.py: the settings that the modelled code reads, and the check of the secret.
use Prim.Native.String.{count}
use async_pulse.Prelude.{ℕ, String, Bool, Option, List, ltb, if◌then◌else◌}
use async_pulse.Python.Result.{Result, ok, err, value_error}

pub record Settings : Type 0 where
  pub app_version : String
  pub database_url : String
  pub direct_database_url : Option String
  pub db_schema : String
  pub cors_origins : List String
  pub api_v1_prefix : String
  pub secret_key : String
  pub access_token_expire_minutes : ℕ
  pub refresh_token_expire_days : ℕ
  pub refresh_cookie_name : String
  pub refresh_cookie_path : String
  pub refresh_cookie_domain : Option String
  pub refresh_cookie_secure : Bool
  pub refresh_cookie_httponly : Bool
  pub refresh_cookie_samesite : String

unfoldable pub validate_secret_key : String → Result String
validate_secret_key v = if ltb (count v) 32 then err value_error else ok v
