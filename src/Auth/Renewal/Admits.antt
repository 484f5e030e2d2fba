-- ===== src/Auth/Renewal/Admits.antt =====
-- A refresh, and the gate in the request that follows: src/modules/auth/service.py with
-- dependencies/authentication.py.
use async_pulse.Prelude.{
  ℕ, eq_iff, suc, ◌<◌, ◌⧺◌, All, All-select, ◌+◌, ◌≤◌, String, ◌≡◌, ◌≢◌, refl, sym, subst, ◌∙◌,
  true, false, ◌&&◌, Option, none, some, [], ◌∷◌, select, arith,
}
use text.Mathlib.TextLemmas.{append_assoc, append_inj}
use async_pulse.Python.Obj.{Obj}
use async_pulse.Python.Codec.{Codec}
use async_pulse.Users.Service.{user_key}
use async_pulse.Python.Result.{ok, is_ok}
use async_pulse.Python.DateTime.{DateTime, aware, as_utc, micros, minutes}
use async_pulse.Db.Tables.{Tables, has, fits, session_ids, merge_row, satisfies_constraints}
use async_pulse.Db.Tables.Keys.{map-id-merge_row}
use async_pulse.Db.World.{World, skip, reading, next_request}
use async_pulse.Env.{Env, Payload, stamped}
use async_pulse.Shared.Security.{claims}
use async_pulse.Users.Entities.{active}
use async_pulse.Users.Models.{UserModel}
use async_pulse.Users.Repository.{has_user_id, is_live, to_entity}
use async_pulse.Auth.Models.{SessionModel}
use async_pulse.Auth.Presents.{Presents}
use async_pulse.Auth.Repository.{has_id}
use async_pulse.Auth.Rows.{ids, found-id, found-has, select-added, select-beside, select-merge_row}
use async_pulse.Auth.Rotation.{
  retired, successor, rotated, rotated_pair, rotated_cache, rotate-accepted, remaining_seconds,
  retired-SameKeys,
}
use async_pulse.Auth.Schemas.{token_pair}
use async_pulse.Auth.Gate.{access_claims, get_current_user}
use async_pulse.Auth.Admission.Stale.{remembered}
use async_pulse.Auth.Admission.Verdict.{IsShown, session-IsShown}
use async_pulse.Auth.Admission.Coherent.{known, RowReadsBack}
use async_pulse.Auth.Admission.Passes.{active_session_passes, retired_session_is_refused}
use async_pulse.Env.Retains.{Retains, Drops}
use async_pulse.Auth.Opening.Admits.{Decodes, access_claims-claims}
use async_pulse.Auth.Renewal.{refresh_token-rotates, refresh_token-accepted}
use async_pulse.Auth.Service.Sessions.{session_key, grace_key}
use async_pulse.Auth.Service.Refresh.{may_refresh, refresh_token}

-- The two rows after a rotation, by their keys.
module _ (session_id : String) (m new : SessionModel) (at : DateTime) (t : Tables)
    (stored : select (has_id session_id) t.sessions ≡ m ∷ [])
    (fresh : has (session_ids t) new.id ≡ false) where
  merged-ids : ids (merge_row (retired m at) t.sessions) ≡ ids t.sessions
  merged-ids = map-id-merge_row (retired m at) m (retired-SameKeys m at) t.sessions (
      subst (λ k. select (has_id k) t.sessions ≡ m ∷ [])
        (sym (found-id session_id t.sessions m stored)) stored)

  new_row : select (has_id new.id) (rotated m at new t).sessions ≡ new ∷ []
  new_row = select-added (merge_row (retired m at) t.sessions) new (rw merged-ids fresh)

  other : new.id ≢ session_id
  other e = ground (
    arith,
    e,
    fresh,
    found-id session_id t.sessions m stored,
    found-has session_id t.sessions m stored,
  )

  old_row : select (has_id session_id) (rotated m at new t).sessions ≡ retired m at ∷ []
  old_row =
      select-beside session_id (merge_row (retired m at) t.sessions) new other
      ∙ select-merge_row session_id m (retired m at) t.sessions
          (found-id session_id t.sessions m stored) stored

-- The claims of the access token that a refresh issues.
abbrev pub renewed_claims : {C : Type 0} → Env C → World C → String → Payload
renewed_claims env w user_id =
    claims user_id (reading w 5 + minutes env.settings.access_token_expire_minutes) "access"
      (some (w.uuid w.drawn))

-- The state in which the rotation starts.
abbrev pub at_rotation : {C : Type 0} → World C → World C
at_rotation w = record w { reads = skip 2 w.reads }

-- The tables after the rotation.
abbrev pub renewed_tables : {C : Type 0} → World C → String → Option String → SessionModel → Tables
renewed_tables w user_id ip m =
    rotated m (aware (reading w 2)) (successor m (w.uuid w.drawn) user_id ip (aware (reading w 7)))
      w.tx

may_active : (u : UserModel) → u.status ≡ active → may_refresh (some (to_entity u)) ≡ true
unfolding may_refresh to_entity
may_active u e = ground (arith, e)

grace_key-ne-session_key : (g s : String) → grace_key g ≢ session_key s
grace_key-ne-session_key g s e =
    let split : "grace:" ⧺ g ≡ "sessio" ⧺ ("n:" ⧺ s) = e ∙ append_assoc "sessio" "n:" s in
    ground (arith, eq_iff "grace:" "sessio", (append_inj split refl).0)

grace_key-ne-user_key : (g u : String) → grace_key g ≢ user_key u
grace_key-ne-user_key g u e =
    let split : "grace" ⧺ (":" ⧺ g) ≡ "user:" ⧺ u = sym (append_assoc "grace" ":" g) ∙ e in
    ground (arith, eq_iff "grace" "user:", (append_inj split refl).0)

-- A key of the grace window is none of those that the gate looks up.
grace-IsShown :
    (codec : Codec) (t : Tables) (session_id : String) (o : Obj)
    → IsShown codec t (grace_key session_id) o
grace-IsShown codec t session_id o = record {
  session = λ k e. absurd (grace_key-ne-session_key session_id k e);
  user = λ k e. absurd (grace_key-ne-user_key session_id k e);
}

module _ {C : Type 0} (env : Env C) (token : String) (ip : Option String) {p : Payload}
    {session_id user_id : String} {m : SessionModel} (w : World C)
    (presents : Presents env token p session_id user_id m w) (unrevoked : m.revoked_at ≡ none)
    (u : UserModel) (current : reading w 1 ≤ micros m.expires_at)
    (account : select (λ x. has_user_id user_id x && is_live x) w.tx.users ≡ u ∷ [])
    (usable : u.status ≡ active) (holds : satisfies_constraints w.tx ≡ true)
    (fresh : has (session_ids w.tx) (w.uuid w.drawn) ≡ false) (short : fits 45 ip ≡ true) where
  -- The whole effect of the refresh.
  refresh_token-runs : refresh_token env (record { refresh_token = token }) ip w ≡ (
    ok (rotated_pair env user_id m (at_rotation w)),
    record w {
      committed = renewed_tables w user_id ip m;
      tx = renewed_tables w user_id ip m;
      cache = rotated_cache env session_id user_id ip m (at_rotation w);
      reads = skip 10 w.reads;
      drawn = suc w.drawn;
    },
  )
  refresh_token-runs =
      refresh_token-rotates env token ip w presents unrevoked u current account
        (may_active u usable)
      ∙ rotate-accepted env session_id user_id ip m m.revoked_at (at_rotation w) presents.stored
          unrevoked holds
          (refresh_token-accepted env token ip w presents unrevoked u current account holds fresh
            short)

  -- What the rotation puts into the cache is what the new tables show.
  cached :
      (Before After : C → Type 0)
      → Drops env.cache (session_key session_id) Before After
      → Retains env.cache (IsShown env.codec (renewed_tables w user_id ip m)) After
      → Before w.cache
      → All (RowReadsBack env) (renewed_tables w user_id ip m).sessions
      → 0 < remaining_seconds m (reading w 4)
      → After (rotated_cache env session_id user_id ip m (at_rotation w))
  cached Before After drops rets before dates lasting =
      let new = successor m (w.uuid w.drawn) user_id ip (aware (reading w 7)) in
      let stored = new_row session_id m new (aware (reading w 2)) w.tx presents.stored fresh in
      rets.set_json-Holds _ _ _ _ _ (omega arith)
        (rets.set_json-Holds _ _ _ _ _ lasting (drops.delete-After _ _ before) (
          session-IsShown env.codec (renewed_tables w user_id ip m) (w.uuid w.drawn) new stored
            (subst (All (RowReadsBack env)) stored
              (All-select (RowReadsBack env) (has_id (w.uuid w.drawn)) _ dates)).0))
        (grace-IsShown env.codec (renewed_tables w user_id ip m) session_id _)

  -- A refresh hands the session over: where a refresh token is read and names a stored session, neither
  -- revoked nor expired, of a live and active account, and is rotated, the new access token passes the
  -- gate in the next request, before the token and the chain expire, and no access token of the old
  -- session does. The identifier drawn is unused, neither identifier is empty, the address fits its
  -- column, the stored rows meet the constraints, and the chain has a second left. The cache may hold the
  -- old session when the refresh starts: a cache that holds nothing but what was before holds, once the
  -- key of the old session is deleted, nothing but what the new tables show, and keeps to that. `jwt` reads
  -- back what it signed, and the dates of the sessions read back.
  pub refresh_hands_over :
      (Before After : C → Type 0) (old : String) (q : Payload) (owner : String)
      → Drops env.cache (session_key session_id) Before After
      → Retains env.cache (IsShown env.codec (renewed_tables w user_id ip m)) After
      → Before w.cache
      → All (RowReadsBack env) (renewed_tables w user_id ip m).sessions
      → 0 < remaining_seconds m (reading w 4)
      → Decodes env.jwt (renewed_claims env w user_id) env.settings.secret_key
      → user_id ≢ ""
      → w.uuid w.drawn ≢ ""
      → reading w 10 ≤ (stamped (renewed_claims env w user_id)).exp
      → ((k : ℕ) → k ≤ 3 → w.clock (skip k (skip 10 w.reads)) ≤ micros (as_utc m.expires_at))
      → env.jwt.decode (reading w 10) old env.settings.secret_key ≡ some q
      → access_claims q ≡ ok (owner, session_id)
      → let (r, w') = refresh_token env (record { refresh_token = token }) ip w in
        let v = next_request w' in
        let pair = rotated_pair env user_id m (at_rotation w) in
        (r ≡ ok pair)
        × (known (get_current_user env pair.access_token v).0 ≡ ok (remembered (to_entity u)))
        × (is_ok (get_current_user env old v).0 ≡ false)
  unfolding token_pair
  refresh_hands_over Before After old q owner drops rets before dates lasting signed i j unexpired
        left read names =
      let new = successor m (w.uuid w.drawn) user_id ip (aware (reading w 7)) in
      let at = aware (reading w 2) in
      let held = cached Before After drops rets before dates lasting in
      rw (refresh_token-runs) (
        refl,
        (active_session_passes env After _ (stamped (renewed_claims env w user_id)) user_id
            (w.uuid w.drawn) new _ rets held dates (signed.decode-encode _ unexpired)
            (access_claims-claims user_id (w.uuid w.drawn) _ i j)
            (new_row session_id m new at w.tx presents.stored fresh) u refl refl left account
            usable).0,
        retired_session_is_refused env After old q owner session_id (retired m at) _ rets held dates
            read names (old_row session_id m new at w.tx presents.stored fresh) at refl,
      )
