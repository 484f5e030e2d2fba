-- ===== src/Tests/Stale.antt =====
-- A cache that still holds the session and the user of an account that has been suspended since.
use async_pulse.Prelude.{str_eq, ◌≡◌, refl, inl, none, some, arith, if◌then◌else◌}
use async_pulse.Python.Result.{ok}
use async_pulse.Python.DateTime.{aware}
use async_pulse.Db.World.{World}
use async_pulse.Env.{Env}
use async_pulse.Users.Entities.{User, active, suspended, user}
use async_pulse.Auth.Entities.{SessionValidation, to_dict}
use async_pulse.Auth.Gate.{access_claims, identity_dict, get_current_user}
use async_pulse.Auth.Admission.Stale.{remembered, stale_cache_admits}
use async_pulse.Tests.Caching.{date-ReadsBack}
use async_pulse.Tests.Sample.{env, codec, cache, access_payload, tables, world}

abbrev held : SessionValidation
held = record { id = "s1"; user_id = "u1"; expires_at = aware 600_000_000; revoked_at = none }

abbrev ann : User
ann = record {
  id = "u1";
  email = "ann@example.org";
  username = "ann";
  name = some "Ann";
  hashed_password = "saltsecret";
  status = active;
  role = user;
  deleted_at = none;
  created_at = some (aware 0);
  updated_at = some (aware 0);
}

abbrev stale_env : Env (Unit {0})
stale_env = record env {
  cache = record cache {
    get_json = λ key now c. (
      ok (
          if str_eq key "session:s1"
          then some (to_dict codec held)
          else if str_eq key "user:u1"
          then some (identity_dict ann)
          else none),
      c,
    );
  };
}

abbrev suspended_home : World (Unit {0})
suspended_home = world 100_000_000 (tables suspended (some (aware 90_000_000)))

stale_cache_admits_example :
    let (r, w') = get_current_user stale_env "access" suspended_home in
    (r ≡ ok (remembered ann))
    × (w'.committed ≡ suspended_home.committed)
    × (w'.tx ≡ suspended_home.tx)
unfolding access_claims
stale_cache_admits_example =
    stale_cache_admits stale_env "access" access_payload "u1" "s1" held ann suspended_home refl refl
      refl (record { expires = date-ReadsBack; revoked = inl refl }) refl refl (ground arith) refl
      refl
