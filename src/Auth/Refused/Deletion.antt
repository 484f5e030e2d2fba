-- ===== src/Auth/Refused/Deletion.antt =====
-- The gate after an account is deleted, whatever the cache holds of sessions.
use async_pulse.Prelude.{
  String, ◌≡◌, ◌≢◌, refl, sym, subst, true, false, ◌&&◌, ◌⊎◌, none, some, List, [], ◌∷◌, select,
  All, All-select, select-head, eq_iff, arith,
}
use async_pulse.Python.Result.{ok, is_ok}
use async_pulse.Db.Tables.{Tables}
use async_pulse.Db.World.{World, reading, next_request}
use async_pulse.Db.Act.{basic_actions}
use async_pulse.Db.Act.Tx.{Post}
use async_pulse.Db.Act.Yields.{Reached}
use async_pulse.Env.{Env, Payload}
use async_pulse.Env.Cached.{get_json}
use async_pulse.Env.Forgets.{Forgets}
use async_pulse.Users.Models.{UserModel}
use async_pulse.Users.Repository.{has_user_id, is_live, find_live, get_by_id}
use async_pulse.Users.Service.{user_key, get_user_by_id, delete_user}
use async_pulse.Auth.Revoker.{build_session_revoker}
use async_pulse.Auth.Lockout.Deletion.{IsDeleted, IsErased, delete_user_locks_out}
use async_pulse.Auth.Gate.{access_claims, user_from_db, find_user, get_current_user}
use async_pulse.Auth.Refused.Forgetting.{Forgotten, Yields-delete_user}
use async_pulse.Auth.Refused.Unknown.{identified, gate-refuses}

-- No row of a deleted user is live.
none_live :
    (user_id : String) (m : UserModel) (t : Tables) (rest : List UserModel)
    → (m.id ≢ user_id) ⊎ (m.deleted_at ≢ none)
    → select (λ u. has_user_id user_id u && is_live u) t.users ≡ m ∷ rest
    → ⊥
none_live user_id m t rest gone sel =
    let q : (has_user_id user_id m && is_live m) ≡ true = select-head _ t.users m rest sel in
    ground (arith, q, gone, eq_iff m.id user_id)

module _ {C : Type 0} (env : Env C) {IsUp : C → Type 0} {Lacks : String → C → Type 0}
    (forgets : Forgets env.cache IsUp Lacks) (user_id : String) (t : Tables)
    (deleted : IsDeleted user_id t) where
  rows_refused :
      (w : World C) (rows : List UserModel)
      → (env.cache.get_json (user_key user_id) (reading w 0) w.cache).0 ≡ ok none
      → select (λ m. has_user_id user_id m && is_live m) w.tx.users ≡ rows
      → All (λ u. (u.id ≢ user_id) ⊎ (u.deleted_at ≢ none)) rows
      → is_ok (identified env forgets user_id t w).0 ≡ false
  unfolding find_user user_from_db get_user_by_id get_by_id find_live get_json basic_actions
  rows_refused w [] miss sel h = ground (arith, miss, sel)
  rows_refused w (m ∷ rows) miss sel (gone, _) = absurd (none_live user_id m w.tx rows gone sel)

  deleted_refused :
      (w : World C)
      → (env.cache.get_json (user_key user_id) (reading w 0) w.cache).0 ≡ ok none
      → w.tx ≡ t
      → is_ok (identified env forgets user_id t w).0 ≡ false
  deleted_refused w miss is = rows_refused w _ miss refl (
      subst
        (λ x.
          All (λ u. (u.id ≢ user_id) ⊎ (u.deleted_at ≢ none))
            (select (λ m. has_user_id user_id m && is_live m) x.users))
        (sym is) (All-select _ (λ m. has_user_id user_id m && is_live m) t.users deleted))

module _ {C : Type 0} (env : Env C) {IsUp : C → Type 0} {Lacks : String → C → Type 0} where
  -- A deletion that succeeded takes effect at once, whatever the cache holds of sessions: in the next
  -- request, no access token of that user passes the gate, where the cache was up before, and finds no key
  -- that was deleted until it is put again.
  pub deletion_takes_effect :
      (user_id token session_id : String) (w w' : World C) (p : Payload)
      → Forgets env.cache IsUp Lacks
      → IsUp w.cache
      → delete_user env (build_session_revoker env) user_id w ≡ (ok tt, w')
      → env.jwt.decode (reading w' 0) token env.settings.secret_key ≡ some p
      → access_claims p ≡ ok (user_id, session_id)
      → is_ok (get_current_user env token (next_request w')).0 ≡ false
  deletion_takes_effect user_id token session_id w w' p forgets up gone decodes carries =
      let (cached, _) =
        subst (Reached (λ _. Forgotten env forgets user_id)) gone
          ((Yields-delete_user env forgets user_id).at w (up, tt)) in
      let erased : IsErased user_id w'.committed =
        subst (Post (λ _ c t. IsErased user_id c) (λ c t. (c ≡ w.committed) ⊎ IsErased user_id c))
          gone (delete_user_locks_out env user_id w) in
      gate-refuses env forgets user_id w'.committed
        (deleted_refused env forgets user_id w'.committed erased.0) token p session_id
        (next_request w') decodes carries (cached, refl)
