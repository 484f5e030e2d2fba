-- ===== src/Auth/Admission/Passes.antt =====
-- The gate on one session, on a cache that holds nothing but what the tables show.
use async_pulse.Prelude.{
  ℕ, ◌≤◌, String, ◌≡◌, sym, ap, ◌∙◌, false, none, some, [], ◌∷◌, select, All, eq_iff, arith,
}
use async_pulse.Python.Result.{Result, ok, is_ok}
use async_pulse.Python.DateTime.{DateTime, micros}
use async_pulse.Db.Tables.{Tables}
use async_pulse.Db.World.{World, reading}
use async_pulse.Env.{Env, Payload}
use async_pulse.Env.Retains.{Retains}
use async_pulse.Users.Entities.{User, active}
use async_pulse.Users.Models.{UserModel}
use async_pulse.Users.Repository.{to_entity}
use async_pulse.Auth.Models.{SessionModel}
use async_pulse.Auth.Repository.{has_id}
use async_pulse.Auth.Gate.{access_claims, check_status, get_current_user}
use async_pulse.Auth.Admission.Stale.{remembered}
use async_pulse.Auth.Admission.Verdict.{
  IsShown, live_users, judged_row, judged_session, judged_user, judged,
}
use async_pulse.Auth.Admission.Coherent.{known, RowReadsBack}
use async_pulse.Auth.Admission.Equivalence.{gate-Agrees}

known-is_ok : (r : Result User) → is_ok (known r) ≡ is_ok r
known-is_ok r = ground arith

module _ (t : Tables) (at : DateTime) (p : Payload) (user_id session_id : String) (m : SessionModel)
    (carries : access_claims p ≡ ok (user_id, session_id))
    (stored : select (has_id session_id) t.sessions ≡ m ∷ []) where
  judged-passes :
      (u : UserModel)
      → m.revoked_at ≡ none
      → m.user_id ≡ user_id
      → micros at ≤ micros m.expires_at
      → live_users user_id t ≡ u ∷ []
      → u.status ≡ active
      → judged t at (some p) ≡ ok (remembered (to_entity u))
  unfolding judged judged_session judged_row judged_user check_status to_entity
  judged-passes u live owned current account usable =
      rw (carries, stored, account)
        (ground (arith, live, owned, current, usable, eq_iff m.user_id user_id))

  judged-refuses : (d : DateTime) → m.revoked_at ≡ some d → is_ok (judged t at (some p)) ≡ false
  unfolding judged judged_session judged_row
  judged-refuses d revoked = rw (carries, stored) (ground (arith, revoked))

module _ {C : Type 0} (env : Env C) (Holds : C → Type 0) (token : String) (p : Payload)
    (user_id session_id : String) (m : SessionModel) (w : World C)
    (rets : Retains env.cache (IsShown env.codec w.tx) Holds) (holds : Holds w.cache)
    (dates : All (RowReadsBack env) w.tx.sessions)
    (decodes : env.jwt.decode (reading w 0) token env.settings.secret_key ≡ some p)
    (carries : access_claims p ≡ ok (user_id, session_id))
    (stored : select (has_id session_id) w.tx.sessions ≡ m ∷ []) where
  -- On a cache that holds nothing but what the tables show, whatever it holds of that, an access token
  -- that is read, and names a stored session of its user that is neither revoked nor expired, passes
  -- the gate where the user's one live account is active: the gate returns that account, up to the
  -- fields that the cache does not keep, and leaves such a cache. The dates of the stored sessions read
  -- back.
  pub active_session_passes :
      (u : UserModel)
      → m.revoked_at ≡ none
      → m.user_id ≡ user_id
      → ((k : ℕ) → k ≤ 3 → reading w k ≤ micros m.expires_at)
      → live_users user_id w.tx ≡ u ∷ []
      → u.status ≡ active
      → let (r, w') = get_current_user env token w in
        (known r ≡ ok (remembered (to_entity u))) × Holds w'.cache
  active_session_passes u live owned current account usable =
      let ((k, few, same), h, _, _) = gate-Agrees env Holds token w rets holds dates in
      (
        same
            ∙ ap (judged w.tx _) decodes
            ∙ judged-passes w.tx _ p user_id session_id m carries stored u live owned
                (current k few) account usable,
        h,
      )

  -- On such a cache, an access token of a session that is revoked in the tables is refused.
  pub retired_session_is_refused :
      (d : DateTime) → m.revoked_at ≡ some d → is_ok (get_current_user env token w).0 ≡ false
  retired_session_is_refused d revoked =
      let ((k, few, same), _, _, _) = gate-Agrees env Holds token w rets holds dates in
      sym (known-is_ok (get_current_user env token w).0)
      ∙ ap is_ok (same ∙ ap (judged w.tx _) decodes)
      ∙ judged-refuses w.tx _ p user_id session_id m carries stored d revoked
