-- ===== src/Auth/Rotation.antt =====
-- The rotation step of `AuthService.refresh_token`: what it stores and what it returns.
pub mod Race
use async_pulse.Prelude.{
  ℕ, suc, ◌+◌, ◌-◌, ◌*◌, ◌/◌, String, ◌≡◌, refl, sym, subst, ◌∙◌, Bool, true, false, Option, none,
  some, List, [], ◌∷◌, ◌++◌, map, all, select, eq_iff, arith,
}
use async_pulse.Python.Result.{ok, err, dbapi_error}
use async_pulse.Python.DateTime.{DateTime, aware, micros, as_utc, second, minutes}
use async_pulse.Db.Tables.{
  Tables, has, fits, user_ids, session_ids, session_fits, session_holds, sessions_hold, merge_row,
  satisfies_constraints,
}
use async_pulse.Db.Tables.Keys.{
  SameKeys, row_id, map-id-merge_row, satisfies-merge_row, satisfies-add_session,
}
use async_pulse.Db.World.{World, skip, reading}
use async_pulse.Db.Act.{flushed, basic_actions}
use async_pulse.Env.{Env}
use async_pulse.Env.Cached.{delete, set_json}
use async_pulse.Shared.Security.{claims, create_token, create_access_token, create_refresh_token}
use async_pulse.Auth.Entities.{revoke, is_revoked, from_session, to_dict}
use async_pulse.Auth.Models.{SessionModel}
use async_pulse.Auth.Repository.{
  has_id, to_session_entity, to_session_model, update_session, create_session,
}
use async_pulse.Auth.Repository.Writes.{update_session-writes, create_session-writes}
use async_pulse.Auth.Rows.{found-id, found-has, found-all}
use async_pulse.Auth.Schemas.{TokenPair, token_pair, model_dump}
use async_pulse.Auth.Service.Sessions.{session_key, grace_key, revoke_now, start_session}
use async_pulse.Auth.Service.Refresh.{grace_window_ms, rotate}

-- The row that is retired, and the row that takes over.
abbrev pub retired : SessionModel → DateTime → SessionModel
retired m at = record m { revoked_at = some at }

-- The row as it stands now, where it was read as `m` and may have been revoked since.
abbrev pub with_revoked_at : Option DateTime → SessionModel → SessionModel
with_revoked_at r m = record m { revoked_at = r }

abbrev pub successor : SessionModel → String → String → Option String → DateTime → SessionModel
successor m id user_id ip at = record {
  id = id;
  user_id = user_id;
  device_info = m.device_info;
  ip_address = ip;
  created_at = at;
  expires_at = as_utc m.expires_at;
  revoked_at = none;
  previous_session_id = some m.id;
}

abbrev pub rotated : SessionModel → DateTime → SessionModel → Tables → Tables
rotated m at new t = record t { sessions = merge_row (retired m at) t.sessions ++ new ∷ [] }

module _ (t : Tables) (key : String) (m : SessionModel) (r : Option DateTime)
    (stored : select (has_id key) t.sessions ≡ with_revoked_at r m ∷ [])
    (holds : satisfies_constraints t ≡ true) where
  found-session_holds : session_holds (user_ids t) (session_ids t) (with_revoked_at r m) ≡ true
  unfolding satisfies_constraints sessions_hold
  found-session_holds =
      found-all (session_holds (user_ids t) (session_ids t)) key t.sessions (with_revoked_at r m)
        stored (ground arith)

  successor-holds :
      (id user_id : String) (ip : Option String) (at : DateTime)
      → has (user_ids t) user_id ≡ true
      → fits 45 ip ≡ true
      → session_holds (user_ids t) (session_ids t) (successor m id user_id ip at) ≡ true
  unfolding session_holds session_fits
  successor-holds id user_id ip at known short =
      ground (arith, found-has key t.sessions (with_revoked_at r m) stored, found-session_holds)

-- The tokens that the rotation issues, from the readings of the clock.
module _ {C : Type 0} (env : Env C) where
  abbrev pub issued_access : String → String → ℕ → String
  issued_access user_id id at =
      env.jwt.encode
        (claims user_id (at + minutes env.settings.access_token_expire_minutes) "access" (some id))
        env.settings.secret_key

  abbrev pub issued_refresh : String → String → ℕ → ℕ → String
  issued_refresh user_id id at remaining =
      env.jwt.encode (claims user_id (at + remaining * second) "refresh" (some id))
        env.settings.secret_key

pub retired-SameKeys : (m : SessionModel) (at : DateTime) → SameKeys (retired m at) m
retired-SameKeys m at = record {
  id = refl;
  user_id = refl;
  previous = refl;
  device_info = refl;
  ip_address = refl;
}

-- The whole seconds that the chain has left.
abbrev pub remaining_seconds : SessionModel → ℕ → ℕ
remaining_seconds m at = (micros (as_utc m.expires_at) - at) / second

module _ {C : Type 0} (env : Env C) where
  -- The cache after the rotation, and the pair that it returns.
  abbrev pub rotated_pair : String → SessionModel → World C → TokenPair
  rotated_pair user_id m w = token_pair (issued_access env user_id (w.uuid w.drawn) (reading w 3)) (
      issued_refresh env user_id (w.uuid w.drawn) (reading w 4) (remaining_seconds m (reading w 2)))

  abbrev pub deleted_cache : String → World C → C
  deleted_cache key w = (env.cache.delete (session_key key) (reading w 1) w.cache).1

  abbrev pub warmed_cache : String → String → Option String → SessionModel → World C → C
  warmed_cache key user_id ip m w =
      (env.cache.set_json (session_key (w.uuid w.drawn))
        (to_dict env.codec (
          from_session
            (to_session_entity (successor m (w.uuid w.drawn) user_id ip (aware (reading w 5))))))
        (some (remaining_seconds m (reading w 2))) (reading w 6) (deleted_cache key w)).1

  abbrev pub rotated_cache : String → String → Option String → SessionModel → World C → C
  rotated_cache key user_id ip m w =
      (env.cache.set_json (grace_key key) (model_dump (rotated_pair user_id m w))
        (some (grace_window_ms / 1_000)) (reading w 7) (warmed_cache key user_id ip m w)).1

-- `m` is the row as the request has read it; `r` is what its revocation time is by now.
module _ {C : Type 0} (env : Env C) (key user_id : String) (ip : Option String) (m : SessionModel)
    (r : Option DateTime) (w : World C)
    (stored : select (has_id key) w.tx.sessions ≡ with_revoked_at r m ∷ [])
    (live : m.revoked_at ≡ none) (holds : satisfies_constraints w.tx ≡ true) where
  stored_self : select (has_id m.id) w.tx.sessions ≡ with_revoked_at r m ∷ []
  stored_self =
      subst (λ k. select (has_id k) w.tx.sessions ≡ with_revoked_at r m ∷ [])
        (sym (found-id key w.tx.sessions (with_revoked_at r m) stored)) stored

  revoke_now-row :
      revoke_now (to_session_entity m) w
      ≡ (ok (to_session_entity (retired m (aware (reading w 0)))), record w { reads = suc w.reads })
  unfolding revoke_now revoke is_revoked to_session_entity basic_actions
  revoke_now-row = ground arith

  same : {at : DateTime} → SameKeys (retired m at) (with_revoked_at r m)
  same = record {
    id = refl;
    user_id = refl;
    previous = refl;
    device_info = refl;
    ip_address = refl;
  }

  -- The tables once the old row is retired.
  abbrev retired_tables : DateTime → Tables
  retired_tables at = record w.tx { sessions = merge_row (retired m at) w.tx.sessions }

  retired-satisfies : (at : DateTime) → satisfies_constraints (retired_tables at) ≡ true
  retired-satisfies at =
      satisfies-merge_row (retired m at) (with_revoked_at r m) same w.tx stored_self ∙ holds

  retire-writes :
      (at : DateTime)
      → update_session (to_session_entity (retired m at)) (record w { reads = suc w.reads }) ≡ (
        ok (to_session_entity (retired m at)),
        record w { tx = retired_tables at; reads = suc w.reads },
      )
  unfolding to_session_entity to_session_model
  retire-writes at =
      update_session-writes (to_session_entity (retired m at)) (with_revoked_at r m)
        (record w { reads = suc w.reads }) same holds stored_self

  abbrev new_row : DateTime → SessionModel
  new_row created = successor m (w.uuid w.drawn) user_id ip created

  -- How the rotation ends when the database takes the new row, and when it refuses it.
  pub rotate-accepted :
      satisfies_constraints (rotated m (aware (reading w 0)) (new_row (aware (reading w 5))) w.tx)
        ≡ true
      → rotate env key user_id ip (to_session_entity m) w ≡ (
        ok (rotated_pair env user_id m w),
        record w {
          committed = rotated m (aware (reading w 0)) (new_row (aware (reading w 5))) w.tx;
          tx = rotated m (aware (reading w 0)) (new_row (aware (reading w 5))) w.tx;
          cache = rotated_cache env key user_id ip m w;
          reads = skip 8 w.reads;
          drawn = suc w.drawn;
        },
      )
  unfolding rotate create_token create_session to_session_entity to_session_model delete set_json
      create_access_token create_refresh_token start_session basic_actions
  rotate-accepted accepted =
      rw (revoke_now-row, retire-writes (aware (reading w 0))) (rw (accepted, flushed) refl)

  pub rotate-refused :
      satisfies_constraints (rotated m (aware (reading w 0)) (new_row (aware (reading w 5))) w.tx)
        ≡ false
      → let (r, w') = rotate env key user_id ip (to_session_entity m) w in
        (r ≡ err dbapi_error) × (w'.committed ≡ w.committed) × (w'.tx ≡ w.committed)
  unfolding rotate create_token create_session to_session_entity to_session_model delete set_json
      create_access_token create_refresh_token start_session basic_actions
  rotate-refused refused =
      rw (revoke_now-row, retire-writes (aware (reading w 0)))
        (rw (refused, flushed) (refl, refl, refl))

  module _ (fresh : has (session_ids w.tx) (w.uuid w.drawn) ≡ false)
      (known : has (user_ids w.tx) user_id ≡ true) (short : fits 45 ip ≡ true) where
    new_row-holds :
        (at created : DateTime)
        → session_holds (user_ids w.tx) (session_ids (retired_tables at)) (new_row created) ≡ true
    new_row-holds at created =
        subst (λ ids. session_holds (user_ids w.tx) ids (new_row created) ≡ true)
          (sym
            (map-id-merge_row (retired m at) (with_revoked_at r m) same w.tx.sessions stored_self))
          (successor-holds w.tx key m r stored holds (w.uuid w.drawn) user_id ip created known
            short)

    new_row-fresh : (at : DateTime) → has (session_ids (retired_tables at)) (w.uuid w.drawn) ≡ false
    new_row-fresh at =
        subst (λ ids. has ids (w.uuid w.drawn) ≡ false)
          (sym
            (map-id-merge_row (retired m at) (with_revoked_at r m) same w.tx.sessions stored_self))
          fresh

    pub rotated-satisfies :
        (at created : DateTime) → satisfies_constraints (rotated m at (new_row created) w.tx) ≡ true
    rotated-satisfies at created =
        satisfies-add_session (retired_tables at) (new_row created) (retired-satisfies at)
          (new_row-fresh at) (new_row-holds at created)

    pub rotate-commits :
        let (r, w') = rotate env key user_id ip (to_session_entity m) w in
        (r ≡ ok (rotated_pair env user_id m w))
        × (w'.committed
            ≡ rotated m
                (aware (reading w 0))
                (successor m (w.uuid w.drawn) user_id ip (aware (reading w 5)))
                w.tx)
    rotate-commits = rw (rotate-accepted (rotated-satisfies _ _)) (refl, refl)
