-- ===== src/Users/Models.antt =====
-- src/modules/users/models.py: a row of the table `users`. `name` is nullable in the schema.
use async_pulse.Prelude.{String, Option}
use async_pulse.Python.DateTime.{DateTime}
use async_pulse.Users.Entities.{UserStatus, UserRole}

pub record UserModel : Type 0 where
  pub id : String
  pub email : String
  pub name : Option String
  pub username : String
  pub hashed_password : String
  pub status : UserStatus
  pub role : UserRole
  pub deleted_at : Option DateTime
  pub created_at : DateTime
  pub updated_at : DateTime
