-- ===== src/Auth/Signout.antt =====
-- `AuthService.logout_all`: what is committed, and what the loop over the cache leaves alone.
use async_pulse.Prelude.{
  suc, String, ◌≡◌, refl, sym, ◌∙◌, subst, true, none, some, List, [], ◌∷◌, map, update_where,
  update_where-map, str_eq, if◌then◌else◌, arith,
}
use async_pulse.Python.Result.{ok}
use async_pulse.Python.DateTime.{DateTime, aware}
use async_pulse.Db.Tables.{Tables, satisfies_constraints}
use async_pulse.Db.Tables.Keys.{satisfies-update_where}
use async_pulse.Db.World.{World}
use async_pulse.Db.Act.{flushed, basic_actions}
use async_pulse.Env.{Env}
use async_pulse.Env.Cached.{delete}
use async_pulse.Auth.Entities.{UserSession}
use async_pulse.Auth.Models.{SessionModel}
use async_pulse.Auth.Repository.{
  is_unrevoked_row, set_revoked, get_active_sessions_for_user, revoke_all_sessions,
}
use async_pulse.Auth.Locked.{IsLockedOut, IsLockedOut-revoke}
use async_pulse.Auth.Service.Logout.{purge_suppressed, logout_all}

-- A row where every session of the user that had no revocation time is given one.
abbrev pub revoked_row : String → DateTime → SessionModel → SessionModel
revoked_row user_id at m =
    if str_eq m.user_id user_id
    then elim m.revoked_at [ none ↦ record m { revoked_at = some at } | some d ↦ m ]
    else m

-- The tables after every session of the user that had no revocation time has been given one.
abbrev pub revoked_for : String → DateTime → Tables → Tables
revoked_for user_id at t = record t { sessions = map (revoked_row user_id at) t.sessions }

revoked_row-update :
    (user_id : String) (at : DateTime) (m : SessionModel)
    → (if is_unrevoked_row user_id m then set_revoked at m else m) ≡ revoked_row user_id at m
revoked_row-update user_id at m = ground arith

revoked-update_where :
    (user_id : String) (at : DateTime) (ss : List SessionModel)
    → update_where (is_unrevoked_row user_id) (set_revoked at) ss ≡ map (revoked_row user_id at) ss
revoked-update_where user_id at =
    update_where-map (is_unrevoked_row user_id) (set_revoked at) (revoked_row user_id at)
      (revoked_row-update user_id at)

pub satisfies-revoked_for :
    (user_id : String) (at : DateTime) (t : Tables)
    → satisfies_constraints (revoked_for user_id at t) ≡ satisfies_constraints t
satisfies-revoked_for user_id at t =
    subst (λ ss. satisfies_constraints (record t { sessions = ss }) ≡ satisfies_constraints t)
      (revoked-update_where user_id at t.sessions)
      (satisfies-update_where (is_unrevoked_row user_id) (set_revoked at)
        (λ s. record {
          id = refl;
          user_id = refl;
          previous = refl;
          device_info = refl;
          ip_address = refl;
        })
        t)

revoked_for-IsLockedOut :
    (user_id : String) (at : DateTime) (t : Tables) → IsLockedOut user_id (revoked_for user_id at t)
revoked_for-IsLockedOut user_id at t =
    subst (λ ss. IsLockedOut user_id (record t { sessions = ss }))
      (revoked-update_where user_id at t.sessions) (IsLockedOut-revoke user_id at t)

pub revoke_all_sessions-writes :
    {C : Type 0} (user_id : String) (w : World C)
    → satisfies_constraints w.tx ≡ true
    → revoke_all_sessions user_id w ≡ (
      ok tt,
      record w { tx = revoked_for user_id (aware (w.clock w.reads)) w.tx; reads = suc w.reads },
    )
unfolding revoke_all_sessions basic_actions
revoke_all_sessions-writes user_id w h =
    rw
      (
        revoked-update_where user_id (aware (w.clock w.reads)) w.tx.sessions,
        satisfies-revoked_for user_id (aware (w.clock w.reads)) w.tx,
        h,
        flushed,
      )
      refl

module _ {C : Type 0} (env : Env C) where
  pub purge_suppressed-keeps :
      (l : List UserSession) (w : World C)
      → let (r, w') = purge_suppressed env l w in
        (r ≡ ok tt) × (w'.committed ≡ w.committed) × (w'.tx ≡ w.tx)
  unfolding purge_suppressed delete basic_actions
  purge_suppressed-keeps [] w = (refl, refl, refl)
  purge_suppressed-keeps (s ∷ l) w = purge_suppressed-keeps l _

  after_purge :
      (user_id : String) (t : Tables) (l : List UserSession) (v : World C)
      → v.committed ≡ t
      → v.tx ≡ t
      → IsLockedOut user_id t
      → let (r, w') = purge_suppressed env l v in
        (r ≡ ok tt) × (w'.committed ≡ t) × (w'.tx ≡ w'.committed) × IsLockedOut user_id w'.committed
  after_purge user_id t l v p q locked =
      let (r, c, x) = purge_suppressed-keeps l v in
      (r, c ∙ p, x ∙ q ∙ sym (c ∙ p), subst (IsLockedOut user_id) (sym (c ∙ p)) locked)

  -- Where the constraints hold, `logout_all` returns, and commits exactly the revocation of every
  -- session of the user that was not revoked, whatever the cache does.
  pub logout_all-commits :
      (user_id : String) (w : World C)
      → satisfies_constraints w.tx ≡ true
      → let (r, w') = logout_all env user_id w in
        (r ≡ ok tt)
        × (w'.committed ≡ revoked_for user_id (aware (w.clock (suc w.reads))) w.tx)
        × (w'.tx ≡ w'.committed)
        × IsLockedOut user_id w'.committed
  unfolding logout_all get_active_sessions_for_user basic_actions
  logout_all-commits user_id w h =
      rw (revoke_all_sessions-writes user_id (record w { reads = suc w.reads }) h) (
        after_purge user_id _ _ _ refl refl
          (revoked_for-IsLockedOut user_id (aware (w.clock (suc w.reads))) w.tx))
