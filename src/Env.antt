-- ===== src/Env.antt =====
-- What the services use and do not implement: the cache behind an interface, the libraries
-- `jose.jwt` and `bcrypt`, the standard library's encodings, and the settings.
pub mod Cached
pub mod Forgets
pub mod Retains
pub mod Forgotten
use async_pulse.Prelude.{ℕ, String, ◌≡◌, Bool, true, Option, none, some, ◌≤◌, ◌*◌, ◌/◌}
use async_pulse.Python.Result.{Result}
use async_pulse.Python.DateTime.{second}
use async_pulse.Python.Obj.{Obj}
use async_pulse.Python.Codec.{Codec}
use async_pulse.Core.Settings.{Settings}

-- The claims of a token. `exp` is in microseconds.
pub record Payload : Type 0 where
  pub sub : Option String
  pub exp : ℕ
  pub type : Option String
  pub jti : Option String
  pub sid : Option String

-- `jwt.encode(payload, key)` and `jwt.decode(token, key)`, which reads the clock; `none` is a
-- `JWTError`.
pub record Jwt : Type 0 where
  pub encode : Payload → String → String
  pub decode : ℕ → String → String → Option Payload

-- The claim `exp` travels in whole seconds.
abbrev pub stamped : Payload → Payload
stamped p = record p { exp = p.exp / second * second }

-- `bcrypt.gensalt`, for each number of a random draw, `bcrypt.hashpw(password, salt)` and
-- `bcrypt.checkpw(password, hash)`; `none` is a `ValueError`.
pub record Bcrypt : Type 0 where
  pub gensalt : ℕ → String
  pub hashpw : String → String → Option String
  pub checkpw : String → String → Option Bool

-- The methods of the cache client that the services call. Each is given the clock's reading.
pub record Cache (C : Type 0) : Type 0 where
  pub get_json : String → ℕ → C → Result (Option Obj) × C
  pub set_json : String → Obj → Option ℕ → ℕ → C → Result (Unit {0}) × C
  pub delete : String → ℕ → C → Result (Unit {0}) × C

pub record Env (C : Type 0) : Type 0 where
  pub cache : Cache C
  pub jwt : Jwt
  pub bcrypt : Bcrypt
  pub codec : Codec
  pub settings : Settings
