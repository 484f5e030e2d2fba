-- ===== src/Users/Entities.antt =====
-- src/modules/users/entities.py: statuses, roles and the `User` entity. A method that mutates the
-- object returns the object that it leaves, or the exception that it raises.
pub mod Lifecycle
use async_pulse.Prelude.{
  ℕ, String, str_eq, Bool, true, false, ◌&&◌, Option, none, some, List, [], ◌∷◌, any, if◌then◌else◌,
}
use async_pulse.Python.Result.{Result, ok, err, app, value_error}
use async_pulse.Python.DateTime.{DateTime}
use async_pulse.Users.Exceptions.{invalid_status_transition_error, user_already_inactive_error}

pub data UserStatus : Type 0 where
  pending_verification active suspended banned : UserStatus

pub data UserRole : Type 0 where
  user admin superuser : UserRole

-- The value of a `StrEnum` member, which is the member as a `str`.
unfoldable pub status_value : UserStatus → String
status_value pending_verification = "pending_verification"
status_value active = "active"
status_value suspended = "suspended"
status_value banned = "banned"

unfoldable pub role_value : UserRole → String
role_value user = "user"
role_value admin = "admin"
role_value superuser = "superuser"

-- `UserStatus(value)` and `UserRole(value)`
unfoldable pub to_status : String → Result UserStatus
to_status s =
    if str_eq s "pending_verification"
    then ok pending_verification
    else if str_eq s "active"
    then ok active
    else if str_eq s "suspended"
    then ok suspended
    else if str_eq s "banned"
    then ok banned
    else err value_error

unfoldable pub to_role : String → Result UserRole
to_role s =
    if str_eq s "user"
    then ok user
    else if str_eq s "admin"
    then ok admin
    else if str_eq s "superuser"
    then ok superuser
    else err value_error

abbrev pub eq_status : UserStatus → UserStatus → Bool
eq_status pending_verification pending_verification = true
eq_status active active = true
eq_status suspended suspended = true
eq_status banned banned = true
eq_status _ _ = false

abbrev pub eq_role : UserRole → UserRole → Bool
eq_role user user = true
eq_role admin admin = true
eq_role superuser superuser = true
eq_role _ _ = false

-- `ROLE_HIERARCHY.get(role, 0)`
unfoldable pub role_hierarchy : UserRole → ℕ
role_hierarchy user = 1
role_hierarchy admin = 2
role_hierarchy superuser = 3

-- `name` may be `None`: the column is nullable, and the entity takes it over.
pub record User : Type 0 where
  pub id : String
  pub email : String
  pub username : String
  pub name : Option String
  pub hashed_password : String
  pub status : UserStatus
  pub role : UserRole
  pub deleted_at : Option DateTime
  pub created_at : Option DateTime
  pub updated_at : Option DateTime

-- The dict `valid_transitions`.
unfoldable pub valid_transitions : UserStatus → List UserStatus
valid_transitions pending_verification = active ∷ banned ∷ []
valid_transitions active = suspended ∷ banned ∷ []
valid_transitions suspended = active ∷ banned ∷ []
valid_transitions banned = []

unfoldable pub transition_to : UserStatus → User → Result User
unfolding valid_transitions
transition_to new_status u =
    if eq_status new_status u.status
    then ok u
    else if any (eq_status new_status) (valid_transitions u.status)
    then ok (record u { status = new_status })
    else err (
        app
          (invalid_status_transition_error u.id (status_value u.status) (status_value new_status)))

unfoldable pub deactivate : DateTime → User → Result User
deactivate now u = elim u.deleted_at [
  | some at ↦ err (app (user_already_inactive_error u.id))
  | none ↦ ok (record u { deleted_at = some now })
]

unfoldable pub activate : User → User
activate u = record u { deleted_at = none }

unfoldable pub change_password : String → User → User
change_password new_hashed_password u = record u { hashed_password = new_hashed_password }

unfoldable pub promote_to_admin : User → User
promote_to_admin u = record u { role = admin }

unfoldable pub promote_to_superuser : User → User
promote_to_superuser u = record u { role = superuser }

unfoldable pub demote_to_user : User → User
demote_to_user u = record u { role = user }

abbrev pub is_none : Option DateTime → Bool
is_none none = true
is_none (some _) = false

unfoldable pub is_fully_active : User → Bool
is_fully_active u = is_none u.deleted_at && eq_status u.status active

unfoldable pub is_superuser : User → Bool
is_superuser u = eq_role u.role superuser
