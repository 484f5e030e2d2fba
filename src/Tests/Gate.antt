-- ===== src/Tests/Gate.antt =====
-- The gate, the role guard and the routes behind them.
use async_pulse.Prelude.{String, ◌≡◌, ◌≢◌, refl, inr, none, some, arith, eq_iff}
use async_pulse.Python.Result.{ok}
use async_pulse.Python.DateTime.{aware}
use async_pulse.Db.World.{World}
use async_pulse.Db.Act.{basic_actions}
use async_pulse.Env.{stamped}
use async_pulse.Env.Cached.{get_json, set_json}
use async_pulse.Shared.Security.{claims, decode_token}
use async_pulse.Users.Entities.{User, active, user, superuser}
use async_pulse.Users.Repository.{to_entity, get_by_id, find_live}
use async_pulse.Users.Service.{get_user_by_id}
use async_pulse.Auth.Entities.{
  validation_is_active, validation_is_expired, validation_is_revoked, from_session,
}
use async_pulse.Auth.Repository.{get_session_by_id, to_session_entity}
use async_pulse.Auth.Gate.{
  access_claims, warm_session, session_from_db, find_session, check_session, find_user,
  user_from_db, check_status, get_current_user,
}
use async_pulse.Auth.Refused.{Misses}
use async_pulse.Auth.Locked.{IsLockedOut}
use async_pulse.Tests.Sample.{env, access_payload, refresh_payload, home, soon}

refresh_claimed :
    some refresh_payload ≡ some (stamped (claims "u1" 900_000_000 "refresh" (some "s1")))
unfolding claims
refresh_claimed = refl

-- The user that the gate lets through, and the state that it leaves.
abbrev pub ann : User
ann = record {
  id = "u1";
  email = "ann@example.org";
  username = "ann";
  name = some "Ann";
  hashed_password = "saltsecret";
  status = active;
  role = user;
  deleted_at = none;
  created_at = some (aware 0);
  updated_at = some (aware 0);
}

abbrev pub after : World (Unit {0})
after = record home { reads = 6 }

pub ann_passes : get_current_user env "access" home ≡ (ok ann, after)
unfolding get_current_user find_session session_from_db warm_session check_session find_user
    user_from_db check_status access_claims decode_token get_session_by_id to_session_entity
    from_session get_user_by_id get_by_id find_live to_entity get_json set_json validation_is_active
    validation_is_expired validation_is_revoked basic_actions
ann_passes = refl

pub bob_not_u1 : ◌≢◌ {A = String} "u1" "u2"
bob_not_u1 e = ground (arith, eq_iff "u1" "u2", e)

pub user_not_superuser : ann.role ≢ superuser
user_not_superuser e = cc

-- A session that has been revoked, and that the cache does not hold.
soon-Misses : Misses env "access" access_payload "u1" "s1" soon
unfolding access_claims
soon-Misses = record { decodes = refl; carries = refl; missed = refl }

soon_locked : IsLockedOut "u1" soon.tx
soon_locked = (inr (λ e. cc), tt)

access_carries : access_claims access_payload ≡ ok ("u1", "s1")
unfolding access_claims
access_carries = refl
