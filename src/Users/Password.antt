-- ===== src/Users/Password.antt =====
-- `UserService.set_password`: the row that it leaves, and the logins that follow.
use async_pulse.Prelude.{
  none, String, str_eq, eq_refl, ◌≡◌, refl, ◌∙◌, ap, true, false, ◌&&◌, Option, some, [], ◌∷◌,
  select, update_where, select-update_where, inr, arith,
}
use async_pulse.Python.Result.{err, app}
use async_pulse.Python.DateTime.{DateTime, aware}
use async_pulse.Db.Tables.{Tables, satisfies_constraints}
use async_pulse.Db.World.{World, reading, next_request}
use async_pulse.Db.Act.{basic_actions}
use async_pulse.Env.{Env}
use async_pulse.Env.Cached.{delete}
use async_pulse.Shared.Security.{hash_password}
use async_pulse.Users.Models.{UserModel}
use async_pulse.Users.Repository.{
  has_user_id, is_live, to_entity, find_live, get_by_id, modify_user, save, set_credentials,
}
use async_pulse.Users.Service.{get_user, set_password}
use async_pulse.Auth.Exceptions.{invalid_credentials_error}
use async_pulse.Auth.Service.Login.{authenticate}
use async_pulse.Auth.Credentials.{accounts, authenticate_rejects}

abbrev rehashed : String → DateTime → UserModel → UserModel
rehashed hash at m = record m { hashed_password = hash; updated_at = at }

-- The tables with another hash in the row of a user.
abbrev pub with_hash : String → String → DateTime → Tables → Tables
with_hash user_id hash at = modify_user user_id (rehashed hash at)

module _ (user_id hash : String) (at : DateTime) (t : Tables) (m : UserModel) where
  -- The live account of an address is found with its new hash.
  accounts-with_hash :
      (address : String)
      → accounts address t ≡ m ∷ []
      → m.id ≡ user_id
      → accounts address (with_hash user_id hash at t) ≡ rehashed hash at m ∷ []
  accounts-with_hash address known is =
      select-update_where (λ u. str_eq u.email address && is_live u) (has_user_id user_id)
        (rehashed hash at) (λ u. refl) t.users
      ∙ ap (update_where (has_user_id user_id) (rehashed hash at)) known
      ∙ ground (arith, is, eq_refl user_id)

module _ {C : Type 0} (env : Env C) (new_password hash : String) (m : UserModel) (w : World C)
    (stored : select (has_user_id m.id) w.tx.users ≡ m ∷ [])
    (live : select (λ u. has_user_id m.id u && is_live u) w.tx.users ≡ m ∷ [])
    (hashes : env.bcrypt.hashpw new_password (env.bcrypt.gensalt w.drawn) ≡ some hash)
    (holds : satisfies_constraints (with_hash m.id hash (aware (reading w 0)) w.tx) ≡ true) where
  set_password-commits :
      (set_password env m.id new_password w).1.committed
      ≡ with_hash m.id hash (aware (reading w 0)) w.tx
  unfolding set_password get_user get_by_id find_live hash_password set_credentials save to_entity
      delete basic_actions
  set_password-commits = ground (arith, live, hashes, stored, holds)

  -- After a change of the password, what is committed is the row with the new hash and the time of the
  -- change, all else as before; and whoever logs in next with a password that does not match the new hash
  -- is refused, whatever matched before, and nothing changes. The rows of the id and of the address are
  -- the one live row, the password is hashed, and the changed tables meet the constraints.
  pub old_password_is_refused :
      (password : String) (device ip : Option String)
      → accounts m.email w.tx ≡ m ∷ []
      → env.bcrypt.checkpw password hash ≡ some false
      → let v = next_request (set_password env m.id new_password w).1 in
        (v.committed ≡ with_hash m.id hash (aware (reading w 0)) w.tx)
        × (authenticate env m.email password device ip v
            ≡ (err (app (invalid_credentials_error none)), v))
  old_password_is_refused password device ip known wrong = (
    set_password-commits,
    authenticate_rejects env m.email password device ip
        (next_request (set_password env m.id new_password w).1)
        (inr (
          rehashed hash (aware (reading w 0)) m,
          ap (accounts m.email) set_password-commits
              ∙ accounts-with_hash m.id hash (aware (reading w 0)) w.tx m m.email known refl,
          wrong,
        )),
  )
