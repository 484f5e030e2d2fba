-- ===== src/Auth/Router/Laws.antt =====
-- The logout route, and which token the refresh route presents.
use async_pulse.Prelude.{
  suc, String, ◌≡◌, ◌≢◌, refl, sym, subst, true, none, some, [], ◌∷◌, select, arith, eq_iff,
}
use async_pulse.Python.Result.{ok}
use async_pulse.Python.DateTime.{DateTime, aware}
use async_pulse.Db.Tables.{Tables, merge_row, satisfies_constraints}
use async_pulse.Db.World.{World, reading}
use async_pulse.Db.Act.{basic_actions}
use async_pulse.Env.{Env, Payload}
use async_pulse.Env.Cached.{delete}
use async_pulse.Shared.Security.{decode_token}
use async_pulse.Auth.Entities.{revoke, is_revoked}
use async_pulse.Auth.Models.{SessionModel}
use async_pulse.Auth.Repository.{
  has_id, to_session_entity, to_session_model, get_session_by_id, update_session,
}
use async_pulse.Auth.Repository.Writes.{update_session-writes}
use async_pulse.Auth.Rotation.{retired, retired-SameKeys}
use async_pulse.Auth.Rows.{found-id}
use async_pulse.Auth.Service.Sessions.{revoke_now}
use async_pulse.Auth.Service.Logout as Service
use async_pulse.Auth.Service.Logout.{logout_session}
use async_pulse.Auth.Router.{cleared_cookie, logout, logout_presented}

-- The tables after one session has been given its revocation time.
abbrev pub with_retired : SessionModel → DateTime → Tables → Tables
with_retired m at t = record t { sessions = merge_row (retired m at) t.sessions }

module _ {C : Type 0} (env : Env C) (session_id : String) (m : SessionModel) (w : World C)
    (stored : select (has_id session_id) w.tx.sessions ≡ m ∷ []) (live : m.revoked_at ≡ none)
    (holds : satisfies_constraints w.tx ≡ true) where
  stored_self : select (has_id m.id) w.tx.sessions ≡ m ∷ []
  stored_self =
      subst (λ k. select (has_id k) w.tx.sessions ≡ m ∷ [])
        (sym (found-id session_id w.tx.sessions m stored)) stored

  pub revoke_now-row :
      revoke_now (to_session_entity m) w
      ≡ (ok (to_session_entity (retired m (aware (reading w 0)))), record w { reads = suc w.reads })
  unfolding revoke_now revoke is_revoked to_session_entity basic_actions
  revoke_now-row = ground arith

  pub retire-writes :
      (at : DateTime)
      → update_session (to_session_entity (retired m at)) (record w { reads = suc w.reads }) ≡ (
        ok (to_session_entity (retired m at)),
        record w { tx = with_retired m at w.tx; reads = suc w.reads },
      )
  unfolding to_session_entity to_session_model
  retire-writes at =
      update_session-writes (to_session_entity (retired m at)) m (record w { reads = suc w.reads })
        (retired-SameKeys m at) holds stored_self

  logout-commits :
      let (r, w') = Service.logout env session_id w in
      (r ≡ ok tt) × (w'.committed ≡ with_retired m (aware (reading w 0)) w.tx)
  unfolding Service.logout logout_session get_session_by_id delete basic_actions
  logout-commits = rw (stored, revoke_now-row, retire-writes (aware (reading w 0))) (refl, refl)

module _ {C : Type 0} (env : Env C) (token : String) (w : World C) where
  -- Logging out with a token that is read and names a stored session that is not revoked answers with
  -- the cleared cookie and commits exactly the revocation of that session, whatever the cache does,
  -- where the stored rows meet the constraints.
  pub logout_revokes :
      (p : Payload) (session_id : String) (m : SessionModel)
      → env.jwt.decode (reading w 0) token env.settings.secret_key ≡ some p
      → p.sid ≡ some session_id
      → session_id ≢ ""
      → select (has_id session_id) w.tx.sessions ≡ m ∷ []
      → m.revoked_at ≡ none
      → satisfies_constraints w.tx ≡ true
      → let (r, w') = logout env token w in
        (r ≡ ok (cleared_cookie env)) × (w'.committed ≡ with_retired m (aware (reading w 1)) w.tx)
  unfolding logout logout_presented decode_token basic_actions
  logout_revokes p session_id m decodes named full stored live holds = ground (
    arith,
    decodes,
    named,
    full,
    eq_iff session_id "",
    logout-commits env session_id m (record w { reads = suc w.reads }) stored live holds,
  )

  -- Logging out with a token that cannot be read answers with the cleared cookie all the same, and
  -- changes nothing in the database.
  pub logout_ignores_bad_token :
      env.jwt.decode (reading w 0) token env.settings.secret_key ≡ none
      → let (r, w') = logout env token w in
        (r ≡ ok (cleared_cookie env)) × (w'.committed ≡ w.committed) × (w'.tx ≡ w.tx)
  unfolding logout logout_presented decode_token basic_actions
  logout_ignores_bad_token unread = ground (arith, unread)
