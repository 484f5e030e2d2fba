-- ===== src/Tests/Password.antt =====
-- A user whose password is changed, and a login with the old one; a user who takes another email.
use async_pulse.Prelude.{◌≡◌, refl, inl, inr, true, none, some}
use async_pulse.Python.Result.{err, app}
use async_pulse.Python.DateTime.{aware}
use async_pulse.Db.Tables.{
  satisfies_constraints, users_hold, user_fits, sessions_hold, session_holds, session_fits,
}
use async_pulse.Db.World.{reading, next_request}
use async_pulse.Users.Entities.{active}
use async_pulse.Users.Password.{with_hash, old_password_is_refused}
use async_pulse.Users.Profile.Saves.{saved, update_user_saves}
use async_pulse.Users.Repository.{set_attrs}
use async_pulse.Users.Schemas.{UserUpdate}
use async_pulse.Users.Service.{set_password, update_user}
use async_pulse.Auth.Exceptions.{invalid_credentials_error}
use async_pulse.Auth.Service.Login.{authenticate}
use async_pulse.Tests.Sample.{env, account, home}

changed_holds :
    satisfies_constraints (with_hash "u1" "saltnew" (aware (reading home 0)) home.tx) ≡ true
unfolding satisfies_constraints users_hold user_fits sessions_hold session_holds session_fits
changed_holds = refl

old_password_is_refused_example :
    let v = next_request (set_password env "u1" "new" home).1 in
    (v.committed ≡ with_hash "u1" "saltnew" (aware (reading home 0)) home.tx)
    × (authenticate env "ann@example.org" "secret" none none v
        ≡ (err (app (invalid_credentials_error none)), v))
old_password_is_refused_example =
    old_password_is_refused env "new" "saltnew" (account active) home refl refl refl changed_holds
      "secret" none none refl refl

abbrev payload : UserUpdate
payload = record { email = some "ann@example.com"; username = some "ann" }

saved_holds : satisfies_constraints (saved "u1" (aware (reading home 0)) payload home.tx) ≡ true
unfolding satisfies_constraints users_hold user_fits sessions_hold session_holds session_fits
    set_attrs
saved_holds = refl

update_user_saves_example :
    (update_user env "u1" payload home).1.committed
    ≡ saved "u1" (aware (reading home 0)) payload home.tx
update_user_saves_example =
    update_user_saves env payload (account active) home (refl, refl) (inl refl)
      (inr (account active, refl, refl)) saved_holds refl
