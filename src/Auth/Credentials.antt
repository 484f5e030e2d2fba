-- ===== src/Auth/Credentials.antt =====
-- `AuthService.authenticate`: the attempts that it refuses.
use async_pulse.Prelude.{
  none, String, ◌≡◌, true, false, ◌&&◌, Option, some, List, [], ◌∷◌, select, arith, str_eq, ◌⊎◌,
  inl, inr, if◌then◌else◌,
}
use async_pulse.Python.Result.{err, app}
use async_pulse.Db.Tables.{Tables}
use async_pulse.Db.World.{World}
use async_pulse.Db.Act.{basic_actions}
use async_pulse.Env.{Env}
use async_pulse.Shared.Security.{verify_password}
use async_pulse.Users.Entities.{suspended, banned, eq_status}
use async_pulse.Users.Exceptions.{user_suspended_error, user_banned_error}
use async_pulse.Users.Models.{UserModel}
use async_pulse.Users.Repository.{to_entity, is_live, find_live, get_by_email}
use async_pulse.Users.Service.{get_user_by_email}
use async_pulse.Auth.Exceptions.{invalid_credentials_error}
use async_pulse.Auth.Service.Login.{check_credentials, check_login_status, authenticate}

abbrev pub accounts : String → Tables → List UserModel
accounts address t = select (λ m. str_eq m.email address && is_live m) t.users

module _ {C : Type 0} (env : Env C) (address password : String) (device ip : Option String)
    (w : World C) where
  -- An address that no live row has, and a wrong password for the one that has it, are answered by the
  -- same error, and nothing changes.
  pub authenticate_rejects :
      (accounts address w.tx ≡ [])
        ⊎ ((u : UserModel) × (accounts address w.tx ≡ u ∷ [])
            × (env.bcrypt.checkpw password u.hashed_password ≡ some false))
      → authenticate env address password device ip w
        ≡ (err (app (invalid_credentials_error none)), w)
  unfolding authenticate get_user_by_email get_by_email find_live check_credentials verify_password
      to_entity basic_actions
  authenticate_rejects (inl unknown) = ground (arith, unknown)
  authenticate_rejects (inr (u, known, wrong)) = ground (arith, known, wrong)

  -- The right password of a suspended or banned account is answered by the error of that status, and
  -- nothing changes.
  pub authenticate_blocked :
      (u : UserModel)
      → accounts address w.tx ≡ u ∷ []
      → env.bcrypt.checkpw password u.hashed_password ≡ some true
      → (u.status ≡ suspended) ⊎ (u.status ≡ banned)
      → authenticate env address password device ip w ≡ (
        err (
            app (
              if eq_status u.status suspended
              then (user_suspended_error none)
              else (user_banned_error none))),
        w,
      )
  unfolding authenticate get_user_by_email get_by_email find_live check_credentials verify_password
      check_login_status to_entity basic_actions
  authenticate_blocked u known right blocked = ground (arith, known, right, blocked)
