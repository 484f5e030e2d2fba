-- ===== src/Auth/Refused/Suspension.antt =====
-- The gate after a suspension or a ban, whatever the cache holds of sessions.
use async_pulse.Prelude.{
  String, ◌≡◌, ◌≢◌, refl, sym, subst, true, false, ◌&&◌, ◌⊎◌, inl, inr, none, some, List, [], ◌∷◌,
  select, All, All-select, select-head, and_left, eq_iff, arith,
}
use async_pulse.Python.Result.{ok, is_ok}
use async_pulse.Db.Tables.{Tables}
use async_pulse.Db.World.{World, reading, next_request}
use async_pulse.Db.Act.{basic_actions}
use async_pulse.Db.Act.Tx.{Post}
use async_pulse.Db.Act.Yields.{Reached}
use async_pulse.Env.{Env, Payload}
use async_pulse.Env.Cached.{get_json, set_json}
use async_pulse.Env.Forgets.{Forgets}
use async_pulse.Users.Entities.{User, UserStatus}
use async_pulse.Users.Models.{UserModel}
use async_pulse.Users.Repository.{has_user_id, is_live, to_entity, find_live, get_by_id}
use async_pulse.Users.Service.{user_key, get_user_by_id, is_lockout, change_status}
use async_pulse.Auth.Revoker.{build_session_revoker}
use async_pulse.Auth.Lockout.{HasStatus, IsApplied, change_status_locks_out}
use async_pulse.Auth.Gate.{access_claims, user_from_db, find_user, check_status, get_current_user}
use async_pulse.Auth.Refused.Forgetting.{Forgotten, Yields-change_status}
use async_pulse.Auth.Refused.Unknown.{identified, gate-refuses}

module _ {C : Type 0} (env : Env C) {IsUp : C → Type 0} {Lacks : String → C → Type 0}
    (forgets : Forgets env.cache IsUp Lacks) (user_id : String) (t : Tables) where
  module _ (s : UserStatus) (lockout : is_lockout s ≡ true) (has : HasStatus user_id s t) where
    rows_refused :
        (w : World C) (rows : List UserModel)
        → (env.cache.get_json (user_key user_id) (reading w 0) w.cache).0 ≡ ok none
        → select (λ m. has_user_id user_id m && is_live m) w.tx.users ≡ rows
        → All (λ u. (u.id ≢ user_id) ⊎ (u.status ≡ s)) rows
        → is_ok (identified env forgets user_id t w).0 ≡ false
    unfolding find_user user_from_db get_user_by_id get_by_id find_live check_status to_entity
        get_json set_json is_lockout basic_actions
    rows_refused w [] miss sel h = ground (arith, miss, sel)
    rows_refused w (m ∷ []) miss sel (inl other, _) =
        let q : (has_user_id user_id m && is_live m) ≡ true = select-head _ w.tx.users m [] sel in
        absurd (other ((eq_iff m.id user_id).0 (and_left (has_user_id user_id m) (is_live m) q)))
    rows_refused w (m ∷ []) miss sel (inr is, _) = ground (arith, miss, sel, is, lockout)
    rows_refused w (m ∷ n ∷ rows) miss sel h = ground (arith, miss, sel)

    suspended_refused :
        (w : World C)
        → (env.cache.get_json (user_key user_id) (reading w 0) w.cache).0 ≡ ok none
        → w.tx ≡ t
        → is_ok (identified env forgets user_id t w).0 ≡ false
    suspended_refused w miss is = rows_refused w _ miss refl (
        subst
          (λ x.
            All (λ u. (u.id ≢ user_id) ⊎ (u.status ≡ s))
              (select (λ m. has_user_id user_id m && is_live m) x.users))
          (sym is) (All-select _ (λ m. has_user_id user_id m && is_live m) t.users has))

module _ {C : Type 0} (env : Env C) {IsUp : C → Type 0} {Lacks : String → C → Type 0} where
  -- A suspension or ban that succeeded takes effect at once, whatever the cache holds of sessions: in the
  -- next request, no access token of that user passes the gate, where the cache was up before, and finds no
  -- key that was deleted until it is put again.
  pub suspension_takes_effect :
      (user_id token session_id : String) (s : UserStatus) (w w' : World C) (u : User) (p : Payload)
      → Forgets env.cache IsUp Lacks
      → IsUp w.cache
      → is_lockout s ≡ true
      → change_status env (build_session_revoker env) user_id s w ≡ (ok u, w')
      → env.jwt.decode (reading w' 0) token env.settings.secret_key ≡ some p
      → access_claims p ≡ ok (user_id, session_id)
      → is_ok (get_current_user env token (next_request w')).0 ≡ false
  suspension_takes_effect user_id token session_id s w w' u p forgets up lockout changed decodes
        carries =
      let (cached, _) =
        subst (Reached (λ _. Forgotten env forgets user_id)) changed
          ((Yields-change_status env forgets user_id s).at w (up, tt)) in
      let applied : IsApplied user_id s w'.committed =
        subst
          (Post (λ _ c t. IsApplied user_id s c) (λ c t. (c ≡ w.committed) ⊎ IsApplied user_id s c))
          changed (change_status_locks_out env user_id s w lockout) in
      gate-refuses env forgets user_id w'.committed
        (suspended_refused env forgets user_id w'.committed s lockout applied.0) token p session_id
        (next_request w') decodes carries (cached, refl)
