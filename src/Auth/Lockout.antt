-- ===== src/Auth/Lockout.antt =====
-- Suspending and banning an account: `UserService.change_status` of src/modules/users/service.py
-- with the revoker of src/modules/auth/session_revoker.py.
pub mod Deletion
use async_pulse.Prelude.{
  String, ◌≡◌, ◌≢◌, refl, ◌∙◌, ◌⊎◌, inl, inr, true, Option, none, some, List, [], ◌∷◌, eq_iff,
  arith, All, All-update_where,
}
use async_pulse.Python.Result.{ok}
use async_pulse.Db.Tables.{Tables}
use async_pulse.Db.World.{World}
use async_pulse.Db.Act.Tx.{
  Rel, Post, Tx, Tx-bind, Tx-now, Tx-pure, Tx-lift, Tx-or_raise, Tx-commit, Tx-if, Tx-raise,
}
use async_pulse.Db.Act.Tx.Weaken.{Tx-given}
use async_pulse.Env.{Env}
use async_pulse.Env.Cached.{Tx-delete}
use async_pulse.Users.Entities.{User, UserStatus, is_none, transition_to, deactivate}
use async_pulse.Users.Models.{UserModel}
use async_pulse.Users.Repository.{
  to_entity, has_user_id, modify_user, set_status, update, set_attrs, Field,
}
use async_pulse.Users.Repository.Effects.{IsFound, Tx-get_by_id, Tx-save}
use async_pulse.Auth.Models.{SessionModel}
use async_pulse.Python.DateTime.{DateTime}
use async_pulse.Users.Service.{
  get_user, deactivate_now, lock_out, is_lockout, change_status, delete_user,
}
use async_pulse.Auth.Entities.{UserSession}
use async_pulse.Auth.Locked.{IsLockedOut, Tx-get_active_sessions, Tx-revoke_all_sessions}
use async_pulse.Auth.Revoker.{purge, revoke_user_sessions, build_session_revoker}

-- Every row of that key has the status.
abbrev pub HasStatus : String → UserStatus → Tables → Type 0
HasStatus user_id s t = All (λ u. (u.id ≢ user_id) ⊎ (u.status ≡ s)) t.users

module _ {C : Type 0} (env : Env C) where
  pub Tx-purge :
      {P E : Rel} (l : List UserSession)
      → ((c t : Tables) → P c t → E c t)
      → Tx P (purge env l) (λ _. P) E
  unfolding purge
  Tx-purge [] k = Tx-pure tt (λ c t p. p)
  Tx-purge (s ∷ rest) k =
      Tx-bind (Tx-delete env.cache _ k) λ _. Tx-bind (Tx-delete env.cache _ k) λ _. Tx-purge rest k

  Tx-revoke_user_sessions :
      {P R E : Rel} (user_id : String)
      → ((c t : Tables) (rows : List SessionModel) → P c t → R c (record t { sessions = rows }))
      → ((c t : Tables) → R c t → E c t)
      → ((c t : Tables) → R c t → E c c)
      → Tx P (revoke_user_sessions env user_id) (λ _ c t. R c t × IsLockedOut user_id t) E
  unfolding revoke_user_sessions
  Tx-revoke_user_sessions user_id keep fail refused =
      Tx-bind (Tx-get_active_sessions user_id) λ active.
        Tx-bind (Tx-revoke_all_sessions user_id keep refused)
          λ _. Tx-purge active (λ c t h. fail c t h.0)

IsFound-id :
    (user_id : String) (o : Option User) (u : User)
    → o ≡ some u
    → IsFound (has_user_id user_id) o
    → u.id ≡ user_id
unfolding to_entity
IsFound-id user_id none u e h = cc
IsFound-id user_id (some v) u e (m, p, q, r) = ground (arith, eq_iff m.id user_id)

Tx-get_user :
    {C : Type 0} {P E : Rel} (user_id : String)
    → ((c t : Tables) → P c t → E c t)
    → Tx {C = C} P (get_user user_id) (λ u c t. P c t × (u.id ≡ user_id)) E
unfolding get_user
Tx-get_user user_id k = Tx-bind (Tx-get_by_id k user_id) λ found.
    Tx-or_raise _ found (λ u c t e h. (h.0, IsFound-id user_id found u e h.1)) (λ c t h. k c t h.0)

transition_to-status : (s : UserStatus) (u v : User) → transition_to s u ≡ ok v → v.status ≡ s
unfolding transition_to
transition_to-status s u v h = ground arith

HasStatus-update :
    (user_id : String) (s : UserStatus) (at : DateTime) (t : Tables)
    → HasStatus user_id s
        (modify_user user_id (λ m. record (record m { status = s }) { updated_at = at }) t)
HasStatus-update user_id s at t =
    All-update_where (λ u. (u.id ≢ user_id) ⊎ (u.status ≡ s)) (has_user_id user_id)
      (λ m. record m { status = s; updated_at = at }) (λ u h. inr refl)
      (λ u h. ground (arith, eq_iff u.id user_id)) t.users

-- The change of an account's status that locks its user out, as the database shows it.
abbrev pub IsApplied : String → UserStatus → Tables → Type 0
IsApplied user_id s t = HasStatus user_id s t × IsLockedOut user_id t

module _ {C : Type 0} (env : Env C) where
  Tx-lock_out :
      {P R E : Rel} (user_id : String) (s : UserStatus)
      → is_lockout s ≡ true
      → ((c t : Tables) (rows : List SessionModel) → P c t → R c (record t { sessions = rows }))
      → ((c t : Tables) → R c t → E c t)
      → ((c t : Tables) → R c t → E c c)
      → Tx P
          (lock_out (build_session_revoker env) user_id s)
          (λ _ c t. R c t × IsLockedOut user_id t)
          E
  unfolding lock_out build_session_revoker
  Tx-lock_out user_id s l keep fail refused =
      rw l (Tx-revoke_user_sessions env user_id keep fail refused)

  module _ (user_id : String) (s : UserStatus) (lockout : is_lockout s ≡ true) (c₀ : Tables) where
    abbrev Before : Rel
    Before c t = c ≡ c₀

    abbrev After : Rel
    After c t = (c ≡ c₀) ⊎ IsApplied user_id s c

    Tx-change_status :
        Tx Before
          (change_status env (build_session_revoker env) user_id s)
          (λ _ c t. IsApplied user_id s c)
          After
    unfolding change_status set_status
    Tx-change_status = Tx-bind (Tx-get_user user_id (λ c t p. inl p)) λ u. Tx-given λ same.
        Tx-bind {Q = λ v c t. (c ≡ c₀) × (v.status ≡ s)}
          (Tx-lift _ (λ v c t e p. (p, transition_to-status s u v e)) (λ c t p. inl p))
          λ v. Tx-given λ moved.
            Tx-bind {Q = λ _ c t. (c ≡ c₀) × HasStatus user_id s t}
              (Tx-save user_id (λ m. record m { status = v.status }) (λ c t p. inl p)
                (λ c t at p. (p, rw moved (HasStatus-update user_id s at t))) (λ c t h. inl h.0))
              λ updated.
                Tx-bind
                  (Tx-lock_out {R = λ c t. (c ≡ c₀) × HasStatus user_id s t} user_id v.status
                    (rw moved lockout) (λ c t rows h. h) (λ c t h. inl h.0) (λ c t h. inl h.0))
                  λ _.
                    Tx-bind {Q = λ _ c t. IsApplied user_id s c} (Tx-commit (λ c t h. (h.0.1, h.1)))
                      λ _.
                        Tx-bind (Tx-delete env.cache _ (λ c t h. inr h)) λ _. Tx-pure _ (λ c t h. h)

  -- Suspending or banning an account is one transaction: after a success every row of the user has
  -- the new status and every session of the user carries a revocation time, and after an error of
  -- any kind the committed tables are either what they were or show all of that.
  pub change_status_locks_out :
      (user_id : String) (s : UserStatus) (w : World C)
      → is_lockout s ≡ true
      → Post
          (λ _ c t. IsApplied user_id s c)
          (λ c t. (c ≡ w.committed) ⊎ IsApplied user_id s c)
          (change_status env (build_session_revoker env) user_id s w)
  change_status_locks_out user_id s w l = (Tx-change_status user_id s l w.committed).at w refl
