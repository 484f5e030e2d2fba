-- ===== src/Users/Router.antt =====
-- src/modules/users/router.py, with the response schema `UserRead` of src/modules/users/schemas.py
-- and src/shared/pagination.py. A handler that has a route of its own says which dependencies the
-- route resolves first.
pub mod Access
pub mod Secrecy
use async_pulse.Prelude.{
  ℕ, ◌-◌, ◌*◌, String, str_eq, Bool, true, false, not, ◌&&◌, ◌||◌, Option, none, some, List, [],
  ◌∷◌, if◌then◌else◌,
}
use async_pulse.Python.Result.{Result, ok, err, app, pydantic_error, ◌>>=◌ as ◌>>>=◌}
use async_pulse.Python.DateTime.{DateTime}
use async_pulse.Db.Act.{Act, pure, lift, require, in_session, ◌>>=◌, ◌>>◌}
use async_pulse.Env.{Env}
use async_pulse.Users.Entities.{
  User, UserStatus, UserRole, superuser, is_fully_active, is_superuser, eq_role,
}
use async_pulse.Users.Exceptions.{insufficient_permissions_error}
use async_pulse.Users.Schemas.{UserCreate, UserUpdate}
use async_pulse.Users.Service
use async_pulse.Auth.Revoker.{build_session_revoker}
use async_pulse.Auth.Gate.{get_current_user, require_role}

pub record UserRead : Type 0 where
  pub id : String
  pub email : String
  pub username : String
  pub name : String
  pub status : UserStatus
  pub role : UserRole
  pub is_active : Bool
  pub is_superuser : Bool
  pub created_at : DateTime
  pub updated_at : DateTime

-- `UserRead.model_validate(user)`: the name and both times are required.
unfoldable pub model_validate : User → Result UserRead
unfolding is_fully_active is_superuser
model_validate u = elim u.name [
  | none ↦ err pydantic_error
  | some name ↦ elim u.created_at [
    | none ↦ err pydantic_error
    | some created ↦ elim u.updated_at [
      | none ↦ err pydantic_error
      | some updated ↦ ok (record {
        id = u.id;
        email = u.email;
        username = u.username;
        name = name;
        status = u.status;
        role = u.role;
        is_active = is_fully_active u;
        is_superuser = is_superuser u;
        created_at = created;
        updated_at = updated;
      })
    ]
  ]
]

-- `[UserRead.model_validate(u) for u in users]`
unfoldable pub validate_all : List User → Result (List UserRead)
validate_all [] = ok []
validate_all (u ∷ us) = model_validate u >>>= λ r. validate_all us >>>= λ rs. ok (r ∷ rs)

-- `PageParams`: `page` and `page_size` are at least 1, and `page_size` at most 100.
pub record PageParams : Type 0 where
  pub page : ℕ
  pub page_size : ℕ

abbrev pub offset : PageParams → ℕ
offset p = (p.page - 1) * p.page_size

pub record PagedResponse (A : Type 0) : Type 0 where
  pub items : List A
  pub total : ℕ
  pub page : ℕ
  pub page_size : ℕ

module _ {C : Type 0} where
  unfoldable pub list_users : PageParams → Act C (PagedResponse UserRead)
  unfolding model_validate
  list_users pagination = do
    (users, total) ← Service.list_users (offset pagination) pagination.page_size
    items ← lift (validate_all users)
    pure (record {
      items = items;
      total = total;
      page = pagination.page;
      page_size = pagination.page_size;
    })

  unfoldable pub get_user : String → Act C UserRead
  get_user user_id = do u ← Service.get_user user_id; lift (model_validate u)

module _ {C : Type 0} (env : Env C) where
  unfoldable pub create_user : UserCreate → Act C UserRead
  create_user payload = do u ← Service.create_user env payload; lift (model_validate u)

  -- `current_user.id != user_id_str and current_user.role != UserRole.SUPERUSER` raises.
  unfoldable pub update_user : String → UserUpdate → User → Act C UserRead
  update_user user_id payload current_user = do
    require (str_eq current_user.id user_id || eq_role current_user.role superuser)
        (app (insufficient_permissions_error "Cannot update other users' profile"))
    u ← Service.update_user env user_id payload
    lift (model_validate u)

  -- `PATCH /users/{user_id}`: the gate runs first, on the session of the request.
  unfoldable pub patch_route : String → String → UserUpdate → Act C UserRead
  patch_route authorization user_id payload = in_session (do
    current_user ← get_current_user env authorization
    update_user user_id payload current_user)

  -- `DELETE /users/{user_id}`: the gate and the role guard run first.
  unfoldable pub delete_route : String → String → Act C (Unit {0})
  delete_route authorization user_id = in_session (do
    current_user ← get_current_user env authorization
    allowed ← lift (require_role superuser current_user)
    Service.delete_user env (build_session_revoker env) user_id)
