-- ===== src/Auth/Admission/Coherent.antt =====
-- The gate on a cache that holds nothing but what the tables show: it answers as the tables do.
use async_pulse.Prelude.{
  ℕ, ◌≤◌, String, ◌≡◌, refl, inl, inr, Option, none, some, List, [], ◌∷◌, select, All, All-select,
  arith,
}
use async_pulse.Python.Result.{
  Result, ok, err, multiple_results_found, or_raise as result_or_raise, ◌>>=◌ as ◌>>>=◌,
}
use async_pulse.Python.Obj.{Obj}
use async_pulse.Db.Rows.{scalar_one_or_none}
use async_pulse.Db.World.{World, skip, reading}
use async_pulse.Db.Act.{basic_actions}
use async_pulse.Env.{Env}
use async_pulse.Env.Cached.{get_json, set_json}
use async_pulse.Env.Retains.{Retains}
use async_pulse.Users.Entities.{User}
use async_pulse.Users.Models.{UserModel}
use async_pulse.Users.Repository.{to_entity, find_live, get_by_id}
use async_pulse.Users.Service.{user_key, get_user_by_id}
use async_pulse.Auth.Access.{cached_user-identity_dict}
use async_pulse.Auth.Entities.{SessionValidation, from_session}
use async_pulse.Auth.Entities.Laws.{DatesReadBack, from_dict-to_dict}
use async_pulse.Auth.Models.{SessionModel}
use async_pulse.Auth.Repository.{has_id, get_session_by_id, to_session_entity}
use async_pulse.Auth.Service.Sessions.{session_key, invalid_token}
use async_pulse.Auth.Gate.{
  session_from_cache, warm_session, session_from_db, find_session, user_from_db, find_user,
}
use async_pulse.Auth.Admission.Stale.{remembered, to_dict-full, identity_dict-full}
use async_pulse.Auth.Admission.Verdict.{IsShown, session-IsShown, user-IsShown, live_users}

-- What the cached identity keeps of the gate's answer.
abbrev pub known : Result User → Result User
known r = r >>>= λ u. ok (remembered u)

abbrev pub projected : Option SessionModel → Option SessionValidation
projected none = none
projected (some m) = some (from_session (to_session_entity m))

abbrev pub account : List UserModel → Result User
account rows = scalar_one_or_none rows >>>= λ o.
    result_or_raise (invalid_token "User profile not found") o >>>= λ m.
    ok (remembered (to_entity m))

module _ {C : Type 0} (env : Env C) where
  -- The dates of a row read back from their texts.
  abbrev pub RowReadsBack : SessionModel → Type 0
  RowReadsBack m = DatesReadBack env.codec (from_session (to_session_entity m))

module _ {C : Type 0} (env : Env C) (Holds : C → Type 0) (w : World C)
    (rets : Retains env.cache (IsShown env.codec w.tx) Holds) (holds : Holds w.cache) where
  -- The rest of the state after `k` readings of the clock, and with another cache.
  abbrev at_cache : ℕ → C → World C
  at_cache k c = record w { cache = c; reads = skip k w.reads }

  abbrev asked : String → Result (Option Obj) × C
  asked key = env.cache.get_json key (reading w 0) w.cache

  abbrev Found : String → Type 0
  Found session_id =
      (k : ℕ) × (c : C) × Holds c
      × (k ≤ 2)
      × (find_session env session_id w ≡ (
        scalar_one_or_none (select (has_id session_id) w.tx.sessions) >>>= λ o. ok (projected o),
        at_cache k c,
      ))

  missed-Found :
      (session_id : String) (rows : List SessionModel)
      → (asked (session_key session_id)).0 ≡ ok none
      → select (has_id session_id) w.tx.sessions ≡ rows
      → All (RowReadsBack env) rows
      → Found session_id
  unfolding find_session session_from_db warm_session get_session_by_id get_json set_json
      basic_actions
  missed-Found session_id [] miss sel dates =
      let c = (asked (session_key session_id)).1 in
      (1, c, rets.get_json-Holds _ _ _ holds, omega arith, rw (miss, sel) refl)
  missed-Found session_id (m ∷ []) miss sel (dates, _) =
      let c = (asked (session_key session_id)).1 in
      let held = rets.get_json-Holds (session_key session_id) (reading w 0) w.cache holds in
      let shows = session-IsShown env.codec w.tx session_id m sel dates in
      (
        2,
        (env.cache.set_json (session_key session_id) _ (some 3_600) (reading w 1) c).1,
        rets.set_json-Holds _ _ (some 3_600) (reading w 1) c (omega arith) held shows,
        omega arith,
        rw (miss, sel, rets.set_json-ok _ _ (some 3_600) (reading w 1) c (omega arith) held shows)
            refl,
      )
  missed-Found session_id (m ∷ n ∷ rows) miss sel dates =
      let c = (asked (session_key session_id)).1 in
      (1, c, rets.get_json-Holds _ _ _ holds, omega arith, rw (miss, sel) refl)

  pub find_session-Found :
      (session_id : String) → All (RowReadsBack env) w.tx.sessions → Found session_id
  unfolding find_session session_from_cache get_json basic_actions
  find_session-Found session_id dates =
      elim (rets.get_json-Allowed (session_key session_id) (reading w 0) w.cache holds) [
        | inl miss ↦
            missed-Found session_id _ miss refl
              (All-select (RowReadsBack env) (has_id session_id) w.tx.sessions dates)
        | inr (o, hit, shown) ↦
            let (m, sel, read, is) = shown.session session_id refl in
            (
              1,
              (asked (session_key session_id)).1,
              rets.get_json-Holds _ _ _ holds,
              omega arith,
              rw
                  (
                    hit,
                    is,
                    sel,
                    to_dict-full env.codec (from_session (to_session_entity m)),
                    from_dict-to_dict env.codec (from_session (to_session_entity m)) read,
                  )
                  refl,
            )
      ]

  abbrev Known : String → Type 0
  Known user_id =
      (k : ℕ) × (c : C) × Holds c
      × (r : Result User) × (find_user env user_id w ≡ (r, at_cache k c))
      × (known r ≡ account (live_users user_id w.tx))

  missed-Known :
      (user_id : String) (rows : List UserModel)
      → (asked (user_key user_id)).0 ≡ ok none
      → live_users user_id w.tx ≡ rows
      → Known user_id
  unfolding find_user user_from_db get_user_by_id get_by_id find_live get_json set_json
      basic_actions
  missed-Known user_id [] miss sel =
      let c = (asked (user_key user_id)).1 in
      (
        1,
        c,
        rets.get_json-Holds _ _ _ holds,
        err (invalid_token "User profile not found"),
        rw (miss, sel) refl,
        rw (sel) refl,
      )
  missed-Known user_id (m ∷ []) miss sel =
      let c = (asked (user_key user_id)).1 in
      let held = rets.get_json-Holds (user_key user_id) (reading w 0) w.cache holds in
      let shows = user-IsShown env.codec w.tx user_id m sel in
      (
        2,
        (env.cache.set_json (user_key user_id) _ (some 3_600) (reading w 1) c).1,
        rets.set_json-Holds _ _ (some 3_600) (reading w 1) c (omega arith) held shows,
        ok (to_entity m),
        rw (miss, sel, rets.set_json-ok _ _ (some 3_600) (reading w 1) c (omega arith) held shows)
            refl,
        rw (sel) refl,
      )
  missed-Known user_id (m ∷ n ∷ rows) miss sel =
      let c = (asked (user_key user_id)).1 in
      (
        1,
        c,
        rets.get_json-Holds _ _ _ holds,
        err multiple_results_found,
        rw (miss, sel) refl,
        rw (sel) refl,
      )

  pub find_user-Known : (user_id : String) → Known user_id
  unfolding find_user get_json basic_actions
  find_user-Known user_id =
      elim (rets.get_json-Allowed (user_key user_id) (reading w 0) w.cache holds) [
        | inl miss ↦ missed-Known user_id _ miss refl
        | inr (o, hit, shown) ↦
            let (m, sel, is) = shown.user user_id refl in
            (
              1,
              (asked (user_key user_id)).1,
              rets.get_json-Holds _ _ _ holds,
              ok (remembered (to_entity m)),
              rw
                  (
                    hit,
                    is,
                    identity_dict-full (to_entity m),
                    cached_user-identity_dict (to_entity m),
                  )
                  refl,
              rw (sel) refl,
            )
      ]
