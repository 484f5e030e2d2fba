-- ===== src/Auth/Router/Finality.antt =====
-- The gate after the logout route: src/modules/auth/router.py with dependencies/authentication.py.
use async_pulse.Prelude.{
  suc, String, ◌≡◌, ◌≢◌, refl, true, false, none, some, [], ◌∷◌, select, arith, eq_iff,
}
use async_pulse.Python.Result.{ok, is_ok}
use async_pulse.Python.DateTime.{aware}
use async_pulse.Db.Tables.{satisfies_constraints}
use async_pulse.Db.World.{World, reading, next_request}
use async_pulse.Db.Act.{basic_actions}
use async_pulse.Env.{Env, Payload}
use async_pulse.Env.Cached.{delete}
use async_pulse.Env.Forgets.{Forgets}
use async_pulse.Shared.Security.{decode_token}
use async_pulse.Auth.Models.{SessionModel}
use async_pulse.Auth.Repository.{has_id, get_session_by_id}
use async_pulse.Auth.Rotation.{retired}
use async_pulse.Auth.Rows.{found-id, select-merge_row}
use async_pulse.Auth.Service.Sessions.{session_key}
use async_pulse.Auth.Service.Logout as Service
use async_pulse.Auth.Service.Logout.{logout_session}
use async_pulse.Auth.Gate.{access_claims, get_current_user}
use async_pulse.Auth.Refused.{revoked_session_is_refused}
use async_pulse.Auth.Router.{cleared_cookie, logout, logout_presented}
use async_pulse.Auth.Router.Laws.{with_retired, revoke_now-row, retire-writes}

module _ {C : Type 0} (env : Env C) {IsUp : C → Type 0} {Lacks : String → C → Type 0}
    (forgets : Forgets env.cache IsUp Lacks) (session_id : String) (m : SessionModel) (w : World C)
    (stored : select (has_id session_id) w.tx.sessions ≡ m ∷ []) (live : m.revoked_at ≡ none)
    (holds : satisfies_constraints w.tx ≡ true) (up : IsUp w.cache) where
  service_logout-forgets :
      let (r, w') = Service.logout env session_id w in
      (r ≡ ok tt)
      × (w'.committed ≡ with_retired m (aware (reading w 0)) w.tx)
      × IsUp w'.cache
      × Lacks (session_key session_id) w'.cache
  unfolding Service.logout logout_session get_session_by_id delete basic_actions
  service_logout-forgets =
      rw
        (
          stored,
          revoke_now-row env session_id m w stored live holds,
          retire-writes env session_id m w stored live holds (aware (reading w 0)),
        )
        (
          refl,
          refl,
          forgets.delete-IsUp _ _ _ (forgets.delete-IsUp _ _ _ up),
          forgets.delete-keeps _ _ _ _ (forgets.delete-IsUp _ _ _ up)
              (forgets.delete-Lacks _ _ _ up),
        )

module _ {C : Type 0} (env : Env C) (token session_id : String) (p : Payload) (m : SessionModel)
    (w : World C) (decodes : env.jwt.decode (reading w 0) token env.settings.secret_key ≡ some p)
    (named : p.sid ≡ some session_id) (full : session_id ≢ "") where
  logout-calls : logout env token w ≡ (
    ok (cleared_cookie env),
    (Service.logout env session_id (record w { reads = suc w.reads })).1,
  )
  unfolding logout logout_presented decode_token basic_actions
  logout-calls = ground (arith, decodes, named, full, eq_iff session_id "")

  module _ {IsUp : C → Type 0} {Lacks : String → C → Type 0}
      (forgets : Forgets env.cache IsUp Lacks)
      (stored : select (has_id session_id) w.tx.sessions ≡ m ∷ []) (live : m.revoked_at ≡ none)
      (holds : satisfies_constraints w.tx ≡ true) (up : IsUp w.cache) where
    logout-forgets :
        let w' = (logout env token w).1 in
        (w'.committed ≡ with_retired m (aware (reading w 1)) w.tx)
        × IsUp w'.cache
        × Lacks (session_key session_id) w'.cache
    logout-forgets =
        let (_, c, u, l) =
          service_logout-forgets env forgets session_id m (record w { reads = suc w.reads }) stored
            live holds up in
        rw (logout-calls) (c, u, l)

    row_retired :
        select (has_id session_id) (logout env token w).1.committed.sessions
        ≡ retired m (aware (reading w 1)) ∷ []
    row_retired = rw (logout-forgets.0) (
        select-merge_row session_id m (retired m (aware (reading w 1))) w.tx.sessions
          (found-id session_id w.tx.sessions m stored) stored)

    -- A token that was logged out stays out: once the logout route was called with a token that is read
    -- and names a stored session that is not revoked, the gate refuses, in the next request, every
    -- access token of that session, and leaves the tables alone, where the stored rows meet the
    -- constraints and the cache finds no key that was deleted.
    pub logged_out_session_is_refused :
        (access user_id : String) (q : Payload)
        → let v = next_request (logout env token w).1 in
          env.jwt.decode (reading v 0) access env.settings.secret_key ≡ some q
          → access_claims q ≡ ok (user_id, session_id)
          → let (r, v') = get_current_user env access v in
            (is_ok r ≡ false) × (v'.committed ≡ v.committed) × (v'.tx ≡ v.tx)
    logged_out_session_is_refused access user_id q read carries =
        let v = next_request (logout env token w).1 in
        let (_, up', lacks) = logout-forgets in
        let missed =
          forgets.get_json-Lacks (session_key session_id) (reading v 1) v.cache up' lacks in
        revoked_session_is_refused env access v
          (record { decodes = read; carries = carries; missed = missed })
          (retired m (aware (reading w 1))) (aware (reading w 1)) row_retired refl
