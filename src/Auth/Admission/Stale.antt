-- ===== src/Auth/Admission/Stale.antt =====
-- The gate on a session and a user that the cache holds: the tables are not looked at.
use async_pulse.Prelude.{◌≤◌, String, ◌≡◌, refl, true, none, some, arith, eq_iff}
use async_pulse.Python.Result.{ok}
use async_pulse.Python.DateTime.{micros}
use async_pulse.Python.Codec.{Codec}
use async_pulse.Python.Obj.{non_empty}
use async_pulse.Db.World.{World, skip, reading}
use async_pulse.Db.Act.{basic_actions}
use async_pulse.Env.{Env, Payload}
use async_pulse.Env.Cached.{get_json}
use async_pulse.Shared.Security.{decode_token}
use async_pulse.Users.Entities.{User, active}
use async_pulse.Users.Service.{user_key}
use async_pulse.Auth.Entities.{
  SessionValidation, to_dict, validation_is_active, validation_is_expired, validation_is_revoked,
}
use async_pulse.Auth.Entities.Laws.{DatesReadBack, from_dict-to_dict}
use async_pulse.Auth.Service.Sessions.{session_key}
use async_pulse.Auth.Access.{cached_user-identity_dict}
use async_pulse.Auth.Gate.{
  access_claims, identity_dict, session_from_cache, find_session, check_session, find_user,
  check_status, get_current_user,
}

-- What is left of a user in the cache.
abbrev pub remembered : User → User
remembered u = record u {
  username = "";
  name = some "";
  hashed_password = "";
  deleted_at = none;
  created_at = none;
  updated_at = none;
}

pub to_dict-full :
    (codec : Codec) (s : SessionValidation) → non_empty (some (to_dict codec s)) ≡ true
unfolding to_dict
to_dict-full codec s = refl

pub identity_dict-full : (u : User) → non_empty (some (identity_dict u)) ≡ true
unfolding identity_dict
identity_dict-full u = refl

module _ {C : Type 0} (env : Env C) where
  abbrev after_get : String → World C → World C
  after_get key w = record w {
    cache = (env.cache.get_json key (reading w 0) w.cache).1;
    reads = skip 1 w.reads;
  }

  find_session-cached :
      (session_id : String) (s : SessionValidation) (w : World C)
      → (env.cache.get_json (session_key session_id) (reading w 0) w.cache).0
        ≡ ok (some (to_dict env.codec s))
      → DatesReadBack env.codec s
      → find_session env session_id w ≡ (ok (some s), after_get (session_key session_id) w)
  unfolding find_session session_from_cache get_json basic_actions
  find_session-cached session_id s w held dates =
      rw (held, to_dict-full env.codec s, from_dict-to_dict env.codec s dates) refl

  find_user-cached :
      (user_id : String) (u : User) (w : World C)
      → (env.cache.get_json (user_key user_id) (reading w 0) w.cache).0
        ≡ ok (some (identity_dict u))
      → find_user env user_id w ≡ (ok (remembered u), after_get (user_key user_id) w)
  unfolding find_user get_json basic_actions
  find_user-cached user_id u w held =
      rw (held, identity_dict-full u, cached_user-identity_dict u) refl

  check_session-live :
      (user_id : String) (s : SessionValidation) (w : World C)
      → s.revoked_at ≡ none
      → s.user_id ≡ user_id
      → reading w 0 ≤ micros s.expires_at
      → check_session env user_id (some s) w ≡ (ok tt, record w { reads = skip 1 w.reads })
  unfolding check_session validation_is_active validation_is_expired validation_is_revoked
      basic_actions
  check_session-live user_id s w live owned current =
      ground (arith, live, owned, current, eq_iff s.user_id user_id)

  -- The cache alone admits: an access token that is read passes the gate, whatever the tables hold, where
  -- the cache holds its session as not revoked, not expired and of the token's user, and then the user as
  -- active; the dates of the session read back. The tables are left alone.
  pub stale_cache_admits :
      (token : String) (p : Payload) (user_id session_id : String) (s : SessionValidation)
      (u : User) (w : World C)
      → env.jwt.decode (reading w 0) token env.settings.secret_key ≡ some p
      → access_claims p ≡ ok (user_id, session_id)
      → (env.cache.get_json (session_key session_id) (reading w 1) w.cache).0
        ≡ ok (some (to_dict env.codec s))
      → DatesReadBack env.codec s
      → s.revoked_at ≡ none
      → s.user_id ≡ user_id
      → reading w 2 ≤ micros s.expires_at
      → (env.cache.get_json
          (user_key user_id)
          (reading w 3)
          (env.cache.get_json (session_key session_id) (reading w 1) w.cache).1).0
        ≡ ok (some (identity_dict u))
      → u.status ≡ active
      → let (r, w') = get_current_user env token w in
        (r ≡ ok (remembered u)) × (w'.committed ≡ w.committed) × (w'.tx ≡ w.tx)
  unfolding get_current_user decode_token check_status basic_actions
  stale_cache_admits token p user_id session_id s u w decodes carries held dates live owned current
        known usable =
      rw
        (
          decodes,
          carries,
          find_session-cached session_id s (record w { reads = skip 1 w.reads }) held dates,
          check_session-live user_id s
              (after_get (session_key session_id) (record w { reads = skip 1 w.reads })) live owned
              current,
          find_user-cached user_id u
              (record (after_get (session_key session_id) (record w { reads = skip 1 w.reads })) {
                reads = skip 3 w.reads;
              })
              known,
        )
        (ground (arith, usable))
