-- ===== src/Tests/Warm/Refresh.antt =====
-- A refresh, and the gate in the request that follows, with a cache that is a map.
use async_pulse.Prelude.{
  select, ◌≡◌, ◌≢◌, refl, sym, ap, ◌∙◌, false, String, eq_iff, inl, inr, none, some, [], ◌∷◌, arith,
}
use async_pulse.Python.Result.{ok, is_ok}
use async_pulse.Python.DateTime.{DateTime, aware}
use async_pulse.Python.Obj.{Obj}
use async_pulse.Db.Tables.{Tables}
use async_pulse.Db.World.{next_request}
use async_pulse.Env.{Env}
use async_pulse.Shared.Security.{claims}
use async_pulse.Users.Entities.{active}
use async_pulse.Users.Repository.{to_entity}
use async_pulse.Auth.Entities.{from_session}
use async_pulse.Auth.Entities.Laws.{DatesReadBack}
use async_pulse.Auth.Models.{SessionModel}
use async_pulse.Auth.Repository.{has_id, to_session_entity}
use async_pulse.Auth.Gate.{get_current_user}
use async_pulse.Auth.Admission.Stale.{remembered}
use async_pulse.Auth.Admission.Verdict.{IsShown}
use async_pulse.Auth.Admission.Coherent.{known}
use async_pulse.Auth.Opening.Admits.{Decodes}
use async_pulse.Auth.Presents.{Presents}
use async_pulse.Auth.Renewal.Admits.{
  at_rotation, renewed_claims, renewed_tables, refresh_hands_over,
}
use async_pulse.Auth.Rotation.{rotated_pair, successor}
use async_pulse.Auth.Service.Sessions.{session_key}
use async_pulse.Auth.Service.Refresh.{refresh_claims, refresh_token}
use async_pulse.Tests.Accounts.{ann_claims}
use async_pulse.Tests.Sample.{access_payload, refresh_payload, session, account, home, home_holds}
use async_pulse.Tests.Warm.{
  Map, HoldsOnly, map_cache-Retains, map_cache-Drops, two_dates, map_env, warm_home, skip-plus,
  stored_date-ReadsBack, warm-HoldsOnly, not_empty, other-ReadsBack,
}

-- The time at which the refresh revokes the old session.
abbrev at_refresh : DateTime
at_refresh = aware 100_000_002

abbrev refresh_env : Env Map
refresh_env = map_env at_refresh

abbrev refreshed : Tables
refreshed = renewed_tables (warm_home at_refresh) "u1" none (session none)

retired-DatesReadBack :
    DatesReadBack
      (two_dates at_refresh)
      (from_session (to_session_entity (session (some at_refresh))))
unfolding from_session to_session_entity
retired-DatesReadBack = record {
  expires = stored_date-ReadsBack at_refresh;
  revoked = inr (at_refresh, refl, other-ReadsBack _ refl);
}

is_s1 : (i : String) (m : SessionModel) → select (has_id i) home.tx.sessions ≡ m ∷ [] → "s1" ≡ i
is_s1 i m found = ground (arith, found, eq_iff "s1" i)

-- Of the sessions, the cache shows none but the old one.
others-IsShown :
    (k : String) (o : Obj)
    → k ≢ "session:s1"
    → IsShown (two_dates at_refresh) home.tx k o
    → IsShown (two_dates at_refresh) refreshed k o
others-IsShown k o other shown = record {
  session = λ i e.
      let (m, found, dates, is) = shown.session i e in
      absurd (other (e ∙ ap session_key (sym (is_s1 i m found))));
  user = λ i e. shown.user i e;
}

successor-DatesReadBack : DatesReadBack (two_dates at_refresh) (
    from_session
      (to_session_entity (successor (session none) "fresh" "u1" none (aware 100_000_007))))
unfolding from_session to_session_entity
successor-DatesReadBack = record { expires = stored_date-ReadsBack at_refresh; revoked = inl refl }

refresh-Decodes :
    Decodes refresh_env.jwt
      (renewed_claims refresh_env (warm_home at_refresh) "u1")
      refresh_env.settings.secret_key
unfolding claims
refresh-Decodes = record { decode-encode = λ now h. ground (arith, h) }

ann-Presents :
    Presents refresh_env "refresh" refresh_payload "s1" "u1" (session none) (warm_home at_refresh)
unfolding refresh_claims
ann-Presents = record { decodes = refl; claims = refl; stored = refl }

refresh_hands_over_example :
    let w = warm_home at_refresh in
    let (r, w') = refresh_token refresh_env (record { refresh_token = "refresh" }) none w in
    let v = next_request w' in
    let pair = rotated_pair refresh_env "u1" (session none) (at_rotation w) in
    (r ≡ ok pair)
    × (known (get_current_user refresh_env pair.access_token v).0
        ≡ ok (remembered (to_entity (account active))))
    × (is_ok (get_current_user refresh_env "access" v).0 ≡ false)
unfolding claims
refresh_hands_over_example =
    refresh_hands_over refresh_env "refresh" none (warm_home at_refresh) ann-Presents refl
      (account active) (ground arith) refl refl home_holds refl refl
      (HoldsOnly (IsShown (two_dates at_refresh) home.tx))
      (HoldsOnly (IsShown (two_dates at_refresh) refreshed)) "access" access_payload "u1"
      (map_cache-Drops "session:s1" _ _ others-IsShown) (map_cache-Retains _)
      (warm-HoldsOnly at_refresh home.tx refl)
      (retired-DatesReadBack, (successor-DatesReadBack, tt)) (ground arith) refresh-Decodes
      not_empty.0 not_empty.1 (ground arith) (λ k few. rw (skip-plus k _) (omega (arith, few))) refl
      ann_claims
