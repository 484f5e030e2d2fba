-- ===== src/Users/Service.antt =====
-- src/modules/users/service.py: the methods of `UserService`, with the cache and the session
-- revoker that src/modules/users/dependencies.py always gives it.
use async_pulse.Prelude.{
  ℕ, String, ◌⧺◌, str_eq, Bool, true, false, Option, none, some, List, [], ◌∷◌, ◌++◌, if◌then◌else◌,
}
use async_pulse.Python.Result.{app}
use async_pulse.Db.Act.{Act, pure, raise, lift, or_raise, require, uuid4, commit, ◌>>=◌, ◌>>◌}
use async_pulse.Env.{Env}
use async_pulse.Env.Cached.{delete}
use async_pulse.Shared.Security.{hash_password}
use async_pulse.Users.Entities.{
  User, UserStatus, active, suspended, banned, transition_to, deactivate, is_none,
}
use async_pulse.Users.Exceptions.{
  user_not_found_error, user_already_exists_error, user_already_inactive_error,
}
use async_pulse.Users.Repository
use async_pulse.Users.Repository.{
  Field, get_by_id, get_by_email, get_by_username, get_by_email_or_username,
}
use async_pulse.Users.Schemas.{UserCreate, UserUpdate}
use async_pulse.Db.Act.{now}

-- The port that the auth module implements.
pub record SessionRevoker (C : Type 0) : Type 0 where
  pub revoke_user_sessions : String → Act C (Unit {0})

abbrev pub user_key : String → String
user_key user_id = "user:" ⧺ user_id

-- `_LOCKOUT_STATUSES`
unfoldable pub is_lockout : UserStatus → Bool
is_lockout suspended = true
is_lockout banned = true
is_lockout _ = false

module _ {C : Type 0} where
  unfoldable pub get_user_by_email : String → Act C (Option User)
  get_user_by_email email = get_by_email email

  unfoldable pub get_user_by_id : String → Act C (Option User)
  get_user_by_id user_id = get_by_id user_id

  -- `if existing: raise`, by which of the two fields is taken.
  unfoldable pub refuse_existing : UserCreate → Option User → Act C (Unit {0})
  refuse_existing payload none = pure tt
  refuse_existing payload (some existing) = raise (
      app (
        user_already_exists_error (
          if str_eq existing.email payload.email
          then "A user with this email already exists"
          else "A user with this username already exists")))

  unfoldable pub get_user : String → Act C User
  get_user user_id = do
    found ← get_by_id user_id
    or_raise (app (user_not_found_error user_id)) found

  unfoldable pub list_users : ℕ → ℕ → Act C (List User × ℕ)
  list_users offset limit = Repository.list_users offset limit

  -- `existing and existing.id != user_id` raises.
  unfoldable pub refuse_taken : String → String → Option User → Act C (Unit {0})
  refuse_taken user_id message none = pure tt
  refuse_taken user_id message (some existing) =
      require (str_eq existing.id user_id) (app (user_already_exists_error message))

  -- The two blocks that fill `update_fields`.
  unfoldable pub email_field : String → Option String → Act C (List Field)
  unfolding refuse_taken
  email_field user_id none = pure []
  email_field user_id (some email) = do
    existing ← get_by_email email
    refuse_taken user_id "A user with this email already exists" existing
    pure (Field.email email ∷ [])

  unfoldable pub username_field : String → Option String → Act C (List Field)
  unfolding refuse_taken
  username_field user_id none = pure []
  username_field user_id (some username) = do
    existing ← get_by_username username
    refuse_taken user_id "A user with this username already exists" existing
    pure (Field.username username ∷ [])

  unfoldable pub lock_out : SessionRevoker C → String → UserStatus → Act C (Unit {0})
  unfolding is_lockout
  lock_out revoker user_id status =
      if is_lockout status then revoker.revoke_user_sessions user_id else pure tt

  -- `user.deactivate()` reads the clock only for a user that is not deleted yet.
  unfoldable pub deactivate_now : User → Act C User
  deactivate_now user =
      if is_none user.deleted_at
      then (do at ← now; lift (deactivate at user))
      else raise (app (user_already_inactive_error user.id))

module _ {C : Type 0} (env : Env C) where
  unfoldable pub create_user : UserCreate → Act C User
  unfolding refuse_existing
  create_user payload = do
    existing ← get_by_email_or_username payload.email payload.username
    refuse_existing payload existing
    user_id ← uuid4
    hash ← hash_password env payload.password
    user ← Repository.create user_id payload.email (some payload.name) payload.username hash active
    commit
    pure user

  -- `if update_fields:`
  unfoldable pub apply_fields : String → User → List Field → Act C User
  apply_fields user_id user [] = pure user
  apply_fields user_id user (f ∷ fs) = do
    updated ← Repository.update user (f ∷ fs)
    commit
    delete env.cache (user_key user_id)
    pure updated

  unfoldable pub update_user : String → UserUpdate → Act C User
  unfolding email_field username_field apply_fields get_user
  update_user user_id payload = do
    user ← get_user user_id
    email ← email_field user_id payload.email
    username ← username_field user_id payload.username
    apply_fields user_id user (email ++ username)

  unfoldable pub set_password : String → String → Act C User
  unfolding get_user
  set_password user_id new_password = do
    user ← get_user user_id
    hash ← hash_password env new_password
    updated ← Repository.set_credentials user_id hash
    commit
    delete env.cache (user_key user_id)
    pure updated

  module _ (revoker : SessionRevoker C) where
    unfoldable pub change_status : String → UserStatus → Act C User
    unfolding get_user lock_out
    change_status user_id new_status = do
      user ← get_user user_id
      moved ← lift (transition_to new_status user)
      updated ← Repository.set_status user_id moved.status
      lock_out revoker user_id moved.status
      commit
      delete env.cache (user_key user_id)
      pure updated

    unfoldable pub delete_user : String → Act C (Unit {0})
    unfolding get_user deactivate_now
    delete_user user_id = do
      user ← get_user user_id
      gone ← deactivate_now user
      stored ← Repository.update gone (Field.deleted_at gone.deleted_at ∷ [])
      revoker.revoke_user_sessions user_id
      commit
      delete env.cache (user_key user_id)
