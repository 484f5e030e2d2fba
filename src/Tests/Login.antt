-- ===== src/Tests/Login.antt =====
-- Logging in.
use async_pulse.Prelude.{String, arith, ◌≡◌, ◌≢◌, ◌⊎◌, refl, true, none, some, [], ◌∷◌}
use async_pulse.Python.Result.{ok, err, pydantic_error}
use async_pulse.Python.DateTime.{aware}
use async_pulse.Db.Tables.{
  users_hold, user_fits, sessions_hold, session_holds, session_fits, satisfies_constraints,
}
use async_pulse.Db.World.{World}
use async_pulse.Db.Act.Tx.{Post}
use async_pulse.Users.Entities.{role_value, active, suspended, banned, user}
use async_pulse.Users.Models.{UserModel}
use async_pulse.Auth.Limit.Login.{IsWithinLimit, authenticate_limits}
use async_pulse.Auth.Models.{SessionModel}
use async_pulse.Auth.Opening.{
  with_session, opened, login_pair, authenticate_opens, authenticate_without_name,
}
use async_pulse.Auth.Service.Login.{authenticate}
use async_pulse.Tests.Sample.{session, env, account, home, world}

-- Ann with and without a name, and the rows that her login leaves.
free_of : (u : UserModel) → u.status ≡ active → (u.status ≢ suspended) × (u.status ≢ banned)
free_of u e = (λ s. cc, λ b. cc)

abbrev nameless : UserModel
nameless = record (account active) { name = none }

abbrev nameless_home : World (Unit {0})
nameless_home = world 100_000_000 (record { users = nameless ∷ []; sessions = home.tx.sessions })

opened_holds :
    satisfies_constraints
      (with_session (opened env (some "curl") none home (account active)) home.tx)
    ≡ true
unfolding satisfies_constraints users_hold user_fits sessions_hold session_holds session_fits
opened_holds = refl

nameless_holds :
    satisfies_constraints
      (with_session (opened env (some "curl") none nameless_home nameless) nameless_home.tx)
    ≡ true
unfolding satisfies_constraints users_hold user_fits sessions_hold session_holds session_fits
nameless_holds = refl

authenticate_opens_example :
    let (r, w') = authenticate env "ann@example.org" "secret" (some "curl") none home in
    (r
      ≡ ok (record {
        user_info = record {
          user_id = "u1";
          email = "ann@example.org";
          name = "Ann";
          username = "ann";
          role = role_value user;
        };
        token_pair = login_pair env home (account active);
      }))
    × (w'.committed ≡ with_session (opened env (some "curl") none home (account active)) home.tx)
authenticate_opens_example =
    authenticate_opens env "ann@example.org" "secret" (some "curl") none home (account active) refl
      refl (free_of (account active) refl).0 (free_of (account active) refl).1 (ground arith)
      opened_holds "Ann" refl

authenticate_without_name_example :
    let (r, w') = authenticate env "ann@example.org" "secret" (some "curl") none nameless_home in
    (r ≡ err pydantic_error)
    × (w'.committed
        ≡ with_session (opened env (some "curl") none nameless_home nameless) nameless_home.tx)
authenticate_without_name_example =
    authenticate_without_name env "ann@example.org" "secret" (some "curl") none nameless_home
      nameless refl refl (free_of nameless refl).0 (free_of nameless refl).1 (ground arith)
      nameless_holds refl

-- Ann has five active sessions, and logs in again.
abbrev numbered : String → SessionModel
numbered id = record (session none) { id = id }

abbrev full_house : World (Unit {0})
full_house = world 100_000_000 (record {
  users = account active ∷ [];
  sessions = numbered "a" ∷ numbered "b" ∷ numbered "c" ∷ numbered "d" ∷ numbered "e" ∷ [];
})

full_house_holds : satisfies_constraints full_house.tx ≡ true
unfolding satisfies_constraints users_hold user_fits sessions_hold session_holds session_fits
full_house_holds = refl

authenticate_limits_example :
    Post
      (λ _ c t. IsWithinLimit "u1" (aware 100_000_000) c)
      (λ c t. (c ≡ full_house.committed) ⊎ IsWithinLimit "u1" (aware 100_000_000) c)
      (authenticate env "ann@example.org" "secret" none none full_house)
authenticate_limits_example =
    authenticate_limits env "ann@example.org" "secret" none none full_house (account active) refl
      refl (free_of (account active) refl).0 (free_of (account active) refl).1 full_house_holds
