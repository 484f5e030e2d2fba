-- ===== src/Auth/Schemas.antt =====
-- src/modules/auth/schemas.py
use async_pulse.Prelude.{String, none, some, [], ◌∷◌}
use async_pulse.Python.Result.{Result, ok, err, pydantic_error}
use async_pulse.Python.Obj.{Obj}
use async_pulse.Users.Entities.{User, role_value}

pub record TokenPair : Type 0 where
  pub access_token : String
  pub refresh_token : String
  pub token_type : String

-- `TokenPair(access_token=..., refresh_token=...)`, with the default type.
unfoldable pub token_pair : String → String → TokenPair
token_pair access refresh = record {
  access_token = access;
  refresh_token = refresh;
  token_type = "bearer";
}

-- `model_dump()`
unfoldable pub model_dump : TokenPair → Obj
model_dump p =
    ("access_token", some p.access_token)
    ∷ ("refresh_token", some p.refresh_token)
    ∷ ("token_type", some p.token_type)
    ∷ []

pub record TokenRefreshRequest : Type 0 where
  pub refresh_token : String

pub record UserInfo : Type 0 where
  pub user_id : String
  pub email : String
  pub name : String
  pub username : String
  pub role : String

-- The `UserInfo(...)` of `authenticate`: its `name` is a required `str`.
unfoldable pub user_info : User → Result UserInfo
unfolding role_value
user_info u = elim u.name [
  | none ↦ err pydantic_error
  | some name ↦ ok (record {
    user_id = u.id;
    email = u.email;
    name = name;
    username = u.username;
    role = role_value u.role;
  })
]

pub record LoginResponse : Type 0 where
  pub user_info : UserInfo
  pub token_pair : TokenPair
