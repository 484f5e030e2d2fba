-- ===== src/Tests/Sample.antt =====
-- A small installation: one user with one session, a cache that holds nothing, and libraries that
-- are simple functions.
use async_pulse.Prelude.{
  ℕ, ◌+◌, ◌⧺◌, str_eq, ◌≡◌, refl, true, Option, none, some, [], ◌∷◌, if◌then◌else◌,
}
use async_pulse.Python.Result.{ok}
use async_pulse.Python.DateTime.{DateTime, aware}
use async_pulse.Python.Codec.{Codec}
use async_pulse.Core.Settings.{Settings}
use async_pulse.Db.Tables.{
  Tables, users_hold, user_fits, sessions_hold, session_holds, session_fits, satisfies_constraints,
}
use async_pulse.Db.World.{World}
use async_pulse.Env.{Env, Payload, Jwt, Bcrypt, Cache}
use async_pulse.Users.Entities.{UserStatus, active, user}
use async_pulse.Users.Models.{UserModel}
use async_pulse.Auth.Models.{SessionModel}

abbrev pub settings : Settings
settings = record {
  app_version = "0.1.0";
  database_url = "postgresql+asyncpg://pooler:6543/app";
  direct_database_url = some "postgresql+asyncpg://direct:5432/app";
  db_schema = "async-pulse";
  cors_origins = "http://localhost:3000" ∷ [];
  api_v1_prefix = "/api/v1";
  secret_key = "0123456789abcdef0123456789abcdef";
  access_token_expire_minutes = 15;
  refresh_token_expire_days = 7;
  refresh_cookie_name = "refresh_token";
  refresh_cookie_path = "/";
  refresh_cookie_domain = none;
  refresh_cookie_secure = true;
  refresh_cookie_httponly = true;
  refresh_cookie_samesite = "lax";
}

abbrev pub access_payload : Payload
access_payload = record {
  sub = some "u1";
  exp = 900_000_000;
  type = some "access";
  jti = none;
  sid = some "s1";
}

abbrev pub refresh_payload : Payload
refresh_payload = record {
  sub = some "u1";
  exp = 900_000_000;
  type = some "refresh";
  jti = some "s1";
  sid = none;
}

abbrev pub jwt : Jwt
jwt = record {
  encode = λ p key. "signed";
  decode = λ now token key.
      if str_eq token "access"
      then some access_payload
      else if str_eq token "refresh"
      then some refresh_payload
      else none;
}

abbrev pub bcrypt : Bcrypt
bcrypt = record {
  gensalt = λ n. "salt";
  hashpw = λ password salt. some (salt ⧺ password);
  checkpw = λ password hash. some (str_eq hash ("salt" ⧺ password));
}

abbrev pub codec : Codec
codec = record {
  dumps = λ o. "{}";
  loads = λ s. some [];
  isoformat = λ d. "1970-01-01T00:10:00+00:00";
  fromisoformat = λ s. some (aware 600_000_000);
}

abbrev pub cache : Cache (Unit {0})
cache = record {
  get_json = λ key now c. (ok none, c);
  set_json = λ key value ttl now c. (ok tt, c);
  delete = λ key now c. (ok tt, c);
}

abbrev pub env : Env (Unit {0})
env = record { cache = cache; jwt = jwt; bcrypt = bcrypt; codec = codec; settings = settings }

abbrev pub account : UserStatus → UserModel
account status = record {
  id = "u1";
  email = "ann@example.org";
  name = some "Ann";
  username = "ann";
  hashed_password = "saltsecret";
  status = status;
  role = user;
  deleted_at = none;
  created_at = aware 0;
  updated_at = aware 0;
}

abbrev pub session : Option DateTime → SessionModel
session revoked_at = record {
  id = "s1";
  user_id = "u1";
  device_info = some "curl";
  ip_address = some "127.0.0.1";
  created_at = aware 0;
  expires_at = aware 600_000_000;
  revoked_at = revoked_at;
  previous_session_id = none;
}

abbrev pub tables : UserStatus → Option DateTime → Tables
tables status revoked_at = record {
  users = account status ∷ [];
  sessions = session revoked_at ∷ [];
}

-- The clock starts at `start` and moves by a microsecond at each reading.
abbrev pub world : ℕ → Tables → World (Unit {0})
world start t = record {
  committed = t;
  tx = t;
  cache = tt;
  clock = λ n. start + n;
  reads = 0;
  uuid = λ n. "fresh";
  drawn = 0;
}

abbrev pub home : World (Unit {0})
home = world 100_000_000 (tables active none)

abbrev pub late : World (Unit {0})
late = world 700_000_000 (tables active none)

-- The session was revoked at the reading 90_000_000.
abbrev pub soon : World (Unit {0})
soon = world 100_000_000 (tables active (some (aware 90_000_000)))

abbrev pub replayed_late : World (Unit {0})
replayed_late = world 200_000_000 (tables active (some (aware 90_000_000)))

pub home_holds : satisfies_constraints home.tx ≡ true
unfolding satisfies_constraints users_hold user_fits sessions_hold session_holds session_fits
home_holds = refl

pub replayed_late_holds : satisfies_constraints replayed_late.tx ≡ true
unfolding satisfies_constraints users_hold user_fits sessions_hold session_holds session_fits
replayed_late_holds = refl
