-- ===== src/Tests/Caching.antt =====
-- Sessions in the cache, and the cache client with a Redis that is down.
use async_pulse.Prelude.{◌≡◌, refl, inr, true, false, none, some, [], ◌∷◌, arith, eq_iff}
use async_pulse.Python.Result.{ok, err, redis_error}
use async_pulse.Python.DateTime.{aware}
use async_pulse.Python.Codec.{ReadsBack}
use async_pulse.Auth.Entities.{SessionValidation, UserSession, to_dict, from_dict}
use async_pulse.Auth.Entities.Laws.{DatesReadBack, from_dict-to_dict}
use async_pulse.Cache.Client.{Redis, CacheClient, fallback_get, with_fallback, init_redis}
use async_pulse.Cache.Failover.{once, with_fallback-fuel}
use async_pulse.Python.Action.{◌>>◌}
use async_pulse.Cache.Trace.{set_command, get_command, delete_command, run, trace-refines}
use async_pulse.Cache.Store.{lookup}
use async_pulse.Cache.Client.{expiry}
use async_pulse.Tests.Sample.{codec}

abbrev cached_session : SessionValidation
cached_session = record {
  id = "s1";
  user_id = "u1";
  expires_at = aware 600_000_000;
  revoked_at = some (aware 600_000_000);
}

pub date-ReadsBack : ReadsBack codec (aware 600_000_000)
date-ReadsBack = record {
  fromisoformat-isoformat = refl;
  isoformat-ne-empty = λ e. ground (arith, eq_iff "1970-01-01T00:10:00+00:00" "", e);
}

dates-DatesReadBack : DatesReadBack codec cached_session
dates-DatesReadBack = record {
  expires = date-ReadsBack;
  revoked = inr (aware 600_000_000, refl, date-ReadsBack);
}

from_dict-to_dict_example : from_dict codec (to_dict codec cached_session) ≡ ok cached_session
from_dict-to_dict_example = from_dict-to_dict codec cached_session dates-DatesReadBack

abbrev full_session : UserSession
full_session = record {
  id = "s1";
  user_id = "u1";
  expires_at = aware 600_000_000;
  device_info = none;
  ip_address = none;
  created_at = aware 0;
  revoked_at = none;
  previous_session_id = none;
}

-- A Redis that answers the ping and fails every command.
abbrev broken : Redis (Unit {0})
broken = record {
  ping = λ s. (ok tt, s);
  get = λ key s. (err redis_error, s);
  set = λ key value ttl s. (err redis_error, s);
  delete = λ key s. (err redis_error, s);
  aclose = λ s. (ok tt, s);
}

abbrev new_client : CacheClient (Unit {0})
new_client = record {
  server = tt;
  connected = false;
  fallback_store = ("k", ("old", some (aware 5))) ∷ ("j", ("kept", none)) ∷ [];
  fallback_active = false;
  initialized = false;
  loop = none;
  running_loop = 0;
}

abbrev offline : CacheClient (Unit {0})
offline = record new_client { fallback_active = true; initialized = true; loop = some 0 }

with_fallback-fuel_example :
    with_fallback broken 7 (fallback_get "k" 4) (broken.get "k") new_client
    ≡ (init_redis broken >> once broken (fallback_get "k" 4) (broken.get "k")) new_client
with_fallback-fuel_example =
    with_fallback-fuel broken (fallback_get "k" 4) (broken.get "k") 5 new_client

-- Set for a second, read in time, read too late, set for good, deleted and read again.
trace-refines_example :
    (run broken
      ((0, set_command "k" "v" (some 1))
        ∷ (1_000_000, get_command "k")
        ∷ (1_000_001, get_command "k")
        ∷ (1_000_002, set_command "k" "w" (some 0))
        ∷ (9_000_000, get_command "k")
        ∷ (9_000_000, delete_command "k")
        ∷ (9_000_000, get_command "k")
        ∷ [])
      offline).0
    ≡ ok (none ∷ some "v" ∷ none ∷ none ∷ some "w" ∷ none ∷ none ∷ [])
unfolding expiry lookup
trace-refines_example =
    trace-refines broken
      ((0, set_command "k" "v" (some 1))
        ∷ (1_000_000, get_command "k")
        ∷ (1_000_001, get_command "k")
        ∷ (1_000_002, set_command "k" "w" (some 0))
        ∷ (9_000_000, get_command "k")
        ∷ (9_000_000, delete_command "k")
        ∷ (9_000_000, get_command "k")
        ∷ [])
      0 offline refl refl
      (
        ground arith,
        (
          ground arith,
          (ground arith, (ground arith, (ground arith, (ground arith, (ground arith, tt))))),
        ),
      )
