-- ===== src/Users/Repository.antt =====
-- src/modules/users/repository.py: the methods of `UserRepository`.
pub mod Effects
use mathlib.Core.Option
use async_pulse.Prelude.{
  ℕ, String, str_eq, Bool, true, false, not, ◌&&◌, ◌||◌, Option, none, some, List, [], ◌∷◌, ◌++◌,
  map, leb, length, take, drop, any, select, update_where, sort_by, if◌then◌else◌,
}
use async_pulse.Python.Result.{type_error}
use async_pulse.Python.DateTime.{DateTime, micros}
use async_pulse.Db.Tables.{Tables}
use async_pulse.Db.Rows.{scalar_one, scalar_one_or_none}
use async_pulse.Db.Act.{Act, pure, raise, lift, query, write, now, flush, ◌>>=◌, ◌>>◌}
use async_pulse.Users.Entities.{UserStatus, UserRole, user, User, is_none}
use async_pulse.Users.Models.{UserModel}
use async_pulse.Auth.Models.{SessionModel}

-- `_to_entity`
unfoldable pub to_entity : UserModel → User
to_entity m = record {
  id = m.id;
  email = m.email;
  username = m.username;
  name = m.name;
  hashed_password = m.hashed_password;
  status = m.status;
  role = m.role;
  deleted_at = m.deleted_at;
  created_at = some m.created_at;
  updated_at = some m.updated_at;
}

abbrev pub has_user_id : String → UserModel → Bool
has_user_id user_id m = str_eq m.id user_id

abbrev pub is_live : UserModel → Bool
is_live m = is_none m.deleted_at

abbrev pub created_after : UserModel → UserModel → Bool
created_after a b = leb (micros b.created_at) (micros a.created_at)

-- A keyword argument of `update`.
pub data Field : Type 0 where
  email username hashed_password : String → Field
  name : Option String → Field
  status : UserStatus → Field
  role : UserRole → Field
  deleted_at : Option DateTime → Field

-- The set `forbidden`.
unfoldable pub is_forbidden : Field → Bool
is_forbidden (hashed_password _) = true
is_forbidden (status _) = true
is_forbidden (role _) = true
is_forbidden _ = false

-- `setattr(model, key, value)`
unfoldable pub set_attr : Field → UserModel → UserModel
set_attr (email v) m = record m { email = v }
set_attr (username v) m = record m { username = v }
set_attr (hashed_password v) m = record m { hashed_password = v }
set_attr (name v) m = record m { name = v }
set_attr (status v) m = record m { status = v }
set_attr (role v) m = record m { role = v }
set_attr (deleted_at v) m = record m { deleted_at = v }

unfoldable pub set_attrs : List Field → UserModel → UserModel
unfolding set_attr
set_attrs [] m = m
set_attrs (f ∷ fs) m = set_attrs fs (set_attr f m)

-- A mutation of the one object that the session holds for a key.
abbrev pub modify_user : String → (UserModel → UserModel) → Tables → Tables
modify_user user_id f t = record t { users = update_where (has_user_id user_id) f t.users }

-- `ON DELETE CASCADE` and `ON DELETE SET NULL` of src/modules/auth/models.py.
abbrev pub refers_to : List SessionModel → Option String → Bool
refers_to gone none = false
refers_to gone (some k) = any (λ s. str_eq s.id k) gone

abbrev pub forget_sessions : List SessionModel → SessionModel → SessionModel
forget_sessions gone s = record s {
  previous_session_id =
      if refers_to gone s.previous_session_id then none else s.previous_session_id;
}

unfoldable pub erase_user : String → Tables → Tables
erase_user user_id t =
    let gone = select (λ s. str_eq s.user_id user_id) t.sessions in
    record {
      users = select (λ m. not (has_user_id user_id m)) t.users;
      sessions =
          map (forget_sessions gone) (select (λ s. not (str_eq s.user_id user_id)) t.sessions);
    }

module _ {C : Type 0} where
  -- The reads share this shape: the rows that pass a test and are not soft-deleted, at most one.
  unfoldable pub find_live : (UserModel → Bool) → Act C (Option User)
  find_live p = do
    rows ← query (λ t. select (λ m. p m && is_live m) t.users)
    model ← lift (scalar_one_or_none rows)
    pure (Option.map to_entity model)

  unfoldable pub get_by_id : String → Act C (Option User)
  unfolding find_live
  get_by_id user_id = find_live (has_user_id user_id)

  unfoldable pub get_by_email : String → Act C (Option User)
  unfolding find_live
  get_by_email address = find_live (λ m. str_eq m.email address)

  unfoldable pub get_by_username : String → Act C (Option User)
  unfolding find_live
  get_by_username handle = find_live (λ m. str_eq m.username handle)

  unfoldable pub get_by_email_or_username : String → String → Act C (Option User)
  unfolding find_live
  get_by_email_or_username address handle =
      find_live (λ m. str_eq m.email address || str_eq m.username handle)

  -- Users created at the same time come in their stored order here; SQL leaves their order open.
  unfoldable pub list_users : ℕ → ℕ → Act C (List User × ℕ)
  list_users offset limit = do
    total ← query (λ t. length (select is_live t.users))
    models ← query (λ t. take limit (drop offset (sort_by created_after (select is_live t.users))))
    pure (map to_entity models, total)

  unfoldable pub create :
      String → String → Option String → String → String → UserStatus → Act C User
  create user_id address full_name handle hash state = do
    created_at ← now
    updated_at ← now
    let model : UserModel = record {
      id = user_id;
      email = address;
      name = full_name;
      username = handle;
      hashed_password = hash;
      status = state;
      role = user;
      deleted_at = none;
      created_at = created_at;
      updated_at = updated_at;
    }
    write (λ t. record t { users = t.users ++ model ∷ [] })
    flush
    pure (to_entity model)

  -- The object that a privileged or a profile update mutates, and the flush that follows.
  unfoldable pub save : String → (UserModel → UserModel) → Act C User
  save user_id f = do
    rows ← query (λ t. select (has_user_id user_id) t.users)
    model ← lift (scalar_one rows)
    at ← now
    write (modify_user user_id (λ m. record (f m) { updated_at = at }))
    flush
    pure (to_entity (record (f model) { updated_at = at }))

  unfoldable pub update : User → List Field → Act C User
  unfolding is_forbidden set_attrs
  update u fields =
      if any is_forbidden fields then raise type_error else save u.id (set_attrs fields)

  unfoldable pub set_credentials : String → String → Act C User
  set_credentials user_id hash = save user_id (λ m. record m { hashed_password = hash })

  unfoldable pub set_status : String → UserStatus → Act C User
  set_status user_id state = save user_id (λ m. record m { status = state })

  -- The hard delete. The database deletes the user's sessions with it, and empties the references
  -- to them.
  unfoldable pub delete : String → Act C (Unit {0})
  delete user_id = do
    rows ← query (λ t. select (has_user_id user_id) t.users)
    model ← lift (scalar_one_or_none rows)
    elim model [ none ↦ pure tt | some m ↦ write (erase_user user_id) >> flush ]
