-- ===== src/Users/Registration.antt =====
-- `UserService.create_user`: what is stored, and how a taken email or username is answered.
use async_pulse.Prelude.{
  suc, String, str_eq, eq_iff, eq_refl, ◌≡◌, refl, ap, if◌then◌else◌, true, false, ◌&&◌, ◌||◌, none,
  some, List, [], ◌∷◌, ◌++◌, map, select, arith,
}
use async_pulse.Python.Result.{ok, err, app, dbapi_error, multiple_results_found}
use async_pulse.Python.DateTime.{DateTime, aware}
use async_pulse.Db.Tables.{Tables, has, distinct, users_hold, satisfies_constraints}
use async_pulse.Db.World.{World, reading}
use async_pulse.Db.Act.{basic_actions}
use async_pulse.Env.{Env}
use async_pulse.Shared.Security.{hash_password}
use async_pulse.Users.Entities.{active, UserRole}
use async_pulse.Users.Models.{UserModel}
use async_pulse.Users.Exceptions.{user_already_exists_error}
use async_pulse.Users.Repository
use async_pulse.Users.Repository.{to_entity, is_live, find_live, get_by_email_or_username}
use async_pulse.Users.Schemas.{UserCreate}
use async_pulse.Users.Service.{refuse_existing, create_user}

-- The live rows that hold the email or the username.
abbrev pub holders : UserCreate → Tables → List UserModel
holders payload t =
    select (λ m. (str_eq m.email payload.email || str_eq m.username payload.username) && is_live m)
      t.users

abbrev pub new_row : String → UserCreate → String → DateTime → DateTime → UserModel
new_row user_id payload hash created_at updated_at = record {
  id = user_id;
  email = payload.email;
  name = some payload.name;
  username = payload.username;
  hashed_password = hash;
  status = active;
  role = UserRole.user;
  deleted_at = none;
  created_at = created_at;
  updated_at = updated_at;
}

abbrev pub with_user : UserModel → Tables → Tables
with_user m t = record t { users = t.users ++ m ∷ [] }

has-last : (ks : List String) (k : String) → has (ks ++ k ∷ []) k ≡ true
has-last [] k = ground (arith, eq_refl k)
has-last (j ∷ ks) k = ground (arith, has-last ks k)

-- A key that is there already is not distinct when it is added.
distinct-taken : (ks : List String) (k : String) → has ks k ≡ true → distinct (ks ++ k ∷ []) ≡ false
distinct-taken [] k h = cc
distinct-taken (j ∷ ks) k h = ground (arith, h, eq_iff j k, has-last ks k, distinct-taken ks k)

emails-append :
    (us : List UserModel) (m : UserModel)
    → map (λ u. u.email) (us ++ m ∷ []) ≡ map (λ u. u.email) us ++ m.email ∷ []
emails-append [] m = refl
emails-append (u ∷ us) m = ap (◌∷◌ u.email) (emails-append us m)

taken_email :
    (t : Tables) (m : UserModel)
    → has (map (λ u. u.email) t.users) m.email ≡ true
    → satisfies_constraints (with_user m t) ≡ false
unfolding satisfies_constraints users_hold
taken_email t m h =
    ground (arith, emails-append t.users m, distinct-taken (map (λ u. u.email) t.users) m.email h)

module _ {C : Type 0} (env : Env C) (payload : UserCreate) (w : World C) where
  -- Where one live row holds the email or the username, the answer is a conflict that names the field,
  -- and nothing changes.
  pub create_user_conflict :
      (m : UserModel)
      → holders payload w.tx ≡ m ∷ []
      → create_user env payload w ≡ (
        err (
            app (
              user_already_exists_error (
                if str_eq m.email payload.email
                then "A user with this email already exists"
                else "A user with this username already exists"))),
        w,
      )
  unfolding create_user get_by_email_or_username find_live refuse_existing to_entity basic_actions
  create_user_conflict m h = ground (arith, h)

  -- Where two live rows or more hold the email or the username, as when the email is that of one user
  -- and the username that of another, the query for at most one row raises: the answer is the
  -- driver's error and no conflict, and nothing changes.
  pub create_user_two_holders :
      (m n : UserModel) (rest : List UserModel)
      → holders payload w.tx ≡ m ∷ n ∷ rest
      → create_user env payload w ≡ (err multiple_results_found, w)
  unfolding create_user get_by_email_or_username find_live refuse_existing to_entity basic_actions
  create_user_two_holders m n rest h = ground (arith, h)

  module _ (hash : String)
      (hashed : env.bcrypt.hashpw payload.password (env.bcrypt.gensalt (suc w.drawn)) ≡ some hash)
      (free : holders payload w.tx ≡ []) where
    abbrev registered : UserModel
    registered = new_row (w.uuid w.drawn) payload hash (aware (reading w 0)) (aware (reading w 1))

    -- Where no live row holds the email or the username, the password is hashed and the tables with the
    -- new row meet the constraints, that row is added and committed, active and with the role `user`, with the hash in place of the password.
    pub create_user_registers :
        satisfies_constraints (with_user registered w.tx) ≡ true
        → let (r, w') = create_user env payload w in
          (r ≡ ok (to_entity registered))
          × (w'.committed ≡ with_user registered w.tx)
          × (w'.tx ≡ w'.committed)
    unfolding create_user get_by_email_or_username find_live refuse_existing hash_password
        Repository.create to_entity basic_actions
    create_user_registers holds = ground (arith, free, hashed, holds)

    -- Where no live row holds the email or the username, the password is hashed and a row has the
    -- email all the same, as that of a soft-deleted user, the database refuses the new row: the answer
    -- is the driver's error and no conflict, and nothing is committed.
    pub create_user_reused_email :
        has (map (λ u. u.email) w.tx.users) payload.email ≡ true
        → let (r, w') = create_user env payload w in
          (r ≡ err dbapi_error) × (w'.committed ≡ w.committed) × (w'.tx ≡ w.committed)
    unfolding create_user get_by_email_or_username find_live refuse_existing hash_password
        Repository.create to_entity basic_actions
    create_user_reused_email taken = ground (arith, free, hashed, taken_email w.tx registered taken)
