-- ===== src/Users/Schemas.antt =====
-- src/modules/users/schemas.py: the payloads, and their field limits.
use Prim.Native.String.{count}
use async_pulse.Prelude.{ℕ, String, Bool, true, ◌&&◌, Option, none, some, leb}

pub record UserCreate : Type 0 where
  pub email : String
  pub name : String
  pub username : String
  pub password : String

pub record UserUpdate : Type 0 where
  pub email : Option String
  pub username : Option String

abbrev pub within : ℕ → ℕ → String → Bool
within lo hi s = leb lo (count s) && leb (count s) hi

-- The `Field(...)` limits; that `email` is an address is checked by pydantic's `EmailStr`.
unfoldable pub user_create_fits : UserCreate → Bool
user_create_fits p = within 3 100 p.name && within 3 25 p.username && leb 8 (count p.password)

unfoldable pub user_update_fits : UserUpdate → Bool
user_update_fits p = elim p.username [ none ↦ true | some s ↦ within 3 100 s ]
