-- ===== src/Auth/Refused.antt =====
-- The gate on a session that is not in the cache: the row in the database decides.
pub mod Unknown
pub mod Forgetting
pub mod Suspension
pub mod Deletion
use async_pulse.Prelude.{
  String, ◌≡◌, ◌≢◌, refl, true, false, none, some, [], ◌∷◌, List, select, arith, eq_iff, All,
  All-select, ◌⊎◌, inl, inr, subst,
}
use async_pulse.Python.Result.{Result, ok, err, is_ok}
use async_pulse.Python.DateTime.{DateTime}
use async_pulse.Db.World.{World, reading}
use async_pulse.Db.Act.{basic_actions}
use async_pulse.Env.{Env, Payload}
use async_pulse.Env.Cached.{get_json, set_json}
use async_pulse.Shared.Security.{decode_token}
use async_pulse.Users.Entities.{User, UserStatus}
use async_pulse.Auth.Entities.{from_session, validation_is_active, validation_is_revoked}
use async_pulse.Auth.Models.{SessionModel}
use async_pulse.Auth.Repository.{has_id, get_session_by_id, to_session_entity}
use async_pulse.Auth.Service.Sessions.{session_key, invalid_token}
use async_pulse.Auth.Locked.{IsLockedOut}
use async_pulse.Auth.Lockout.{IsApplied, change_status_locks_out}
use async_pulse.Auth.Revoker.{build_session_revoker}
use async_pulse.Users.Service.{is_lockout, change_status}
use async_pulse.Db.Act.Tx.{Post}
use async_pulse.Auth.Gate.{
  access_claims, warm_session, session_from_db, find_session, check_session, get_current_user,
}

module _ {C : Type 0} (env : Env C) where
  -- An access token that is read, and whose session the cache does not hold.
  pub record Misses (token : String) (p : Payload) (user_id session_id : String) (w : World C)
      : Type 0 where
    pub decodes : env.jwt.decode (reading w 0) token env.settings.secret_key ≡ some p
    pub carries : access_claims p ≡ ok (user_id, session_id)
    pub missed : (env.cache.get_json (session_key session_id) (reading w 1) w.cache).0 ≡ ok none

  module _ (token : String) {p : Payload} {user_id session_id : String} (w : World C)
      (misses : Misses token p user_id session_id w) where
    -- A session that has no row, as one that was never opened, is refused.
    pub unknown_session_is_refused :
        select (has_id session_id) w.tx.sessions ≡ []
        → (get_current_user env token w).0
          ≡ err (invalid_token "Session is invalid or has been logged out")
    unfolding get_current_user find_session session_from_db warm_session check_session decode_token
        get_session_by_id get_json basic_actions
    unknown_session_is_refused gone =
        ground (arith, misses.decodes, misses.carries, misses.missed, gone)

    -- A session whose row carries a revocation time is refused, whatever the cache answers when the
    -- row is written to it, and the tables are left alone.
    pub revoked_session_is_refused :
        (m : SessionModel) (at : DateTime)
        → select (has_id session_id) w.tx.sessions ≡ m ∷ []
        → m.revoked_at ≡ some at
        → let (r, w') = get_current_user env token w in
          (is_ok r ≡ false) × (w'.committed ≡ w.committed) × (w'.tx ≡ w.tx)
    unfolding get_current_user find_session session_from_db warm_session check_session decode_token
        get_session_by_id get_json set_json to_session_entity from_session validation_is_active
        validation_is_revoked basic_actions
    revoked_session_is_refused m at stored revoked =
        ground (arith, misses.decodes, misses.carries, misses.missed, stored, revoked)

    rows_refused :
        (l : List SessionModel)
        → select (has_id session_id) w.tx.sessions ≡ l
        → All (λ s. (s.user_id ≢ user_id) ⊎ (s.revoked_at ≢ none)) l
        → is_ok (get_current_user env token w).0 ≡ false
    unfolding get_current_user find_session session_from_db warm_session check_session decode_token
        get_session_by_id get_json set_json to_session_entity from_session validation_is_active
        validation_is_revoked basic_actions
    rows_refused [] e h = ground (arith, misses.decodes, misses.carries, misses.missed, e)
    rows_refused (m ∷ []) e (inl other, _) =
        ground
          (arith, misses.decodes, misses.carries, misses.missed, e, eq_iff m.user_id user_id, other)
    rows_refused (m ∷ []) e (inr revoked, _) =
        ground (arith, misses.decodes, misses.carries, misses.missed, e, revoked)
    rows_refused (m ∷ n ∷ l) e h = ground (arith, misses.decodes, misses.carries, misses.missed, e)

    -- No access token of a user whose sessions all carry a revocation time passes the gate, where the
    -- cache does not hold the session.
    pub locked_out_user_is_refused :
        IsLockedOut user_id w.tx → is_ok (get_current_user env token w).0 ≡ false
    locked_out_user_is_refused locked =
        rows_refused _ refl (All-select _ (has_id session_id) w.tx.sessions locked)

module _ {C : Type 0} (env : Env C) where
  -- A suspension or ban that succeeded takes effect at once: in the next request, no access token of
  -- that user passes the gate, where the cache does not hold the session.
  pub locked_out_by_status :
      (user_id token session_id : String) (s : UserStatus) (w w' : World C) (u : User) (p : Payload)
      → is_lockout s ≡ true
      → change_status env (build_session_revoker env) user_id s w ≡ (ok u, w')
      → Misses env token p user_id session_id (record w' { tx = w'.committed })
      → is_ok (get_current_user env token (record w' { tx = w'.committed })).0 ≡ false
  locked_out_by_status user_id token session_id s w w' u p l changed misses =
      locked_out_user_is_refused env token (record w' { tx = w'.committed }) misses
        (applied (change_status env (build_session_revoker env) user_id s w) changed
          (change_status_locks_out env user_id s w l))
    where
      applied :
          (o : Result User × World C)
          → o ≡ (ok u, w')
          → Post
              (λ _ c t. IsApplied user_id s c)
              (λ c t. (c ≡ w.committed) ⊎ IsApplied user_id s c)
              o
          → IsLockedOut user_id w'.committed
      applied o e h =
          (subst
            (Post (λ _ c t. IsApplied user_id s c)
              (λ c t. (c ≡ w.committed) ⊎ IsApplied user_id s c))
            e h).1
