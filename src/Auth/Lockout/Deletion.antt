-- ===== src/Auth/Lockout/Deletion.antt =====
-- Deleting an account: `UserService.delete_user` of src/modules/users/service.py with the revoker of
-- src/modules/auth/session_revoker.py.
use async_pulse.Prelude.{
  String, ◌≡◌, ◌≢◌, refl, ◌∙◌, ◌⊎◌, inl, inr, Option, none, List, [], ◌∷◌, eq_iff, arith, All,
  All-update_where,
}
use async_pulse.Python.Result.{ok}
use async_pulse.Db.Tables.{Tables}
use async_pulse.Db.World.{World}
use async_pulse.Db.Act.Tx.{Rel, Post, Tx, Tx-bind, Tx-now, Tx-lift, Tx-commit, Tx-if, Tx-raise}
use async_pulse.Db.Act.Tx.Weaken.{Tx-given}
use async_pulse.Env.{Env}
use async_pulse.Env.Cached.{Tx-delete}
use async_pulse.Users.Entities.{User, is_none, deactivate}
use async_pulse.Users.Models.{UserModel}
use async_pulse.Users.Repository.{has_user_id, modify_user, update, set_attrs, Field}
use async_pulse.Users.Repository.Effects.{Tx-save}
use async_pulse.Python.DateTime.{DateTime}
use async_pulse.Users.Service.{deactivate_now, delete_user}
use async_pulse.Auth.Locked.{IsLockedOut}
use async_pulse.Auth.Revoker.{build_session_revoker}
use async_pulse.Auth.Lockout.{Tx-get_user, Tx-revoke_user_sessions}

-- Every row of that key is soft-deleted.
abbrev pub IsDeleted : String → Tables → Type 0
IsDeleted user_id t = All (λ u. (u.id ≢ user_id) ⊎ (u.deleted_at ≢ none)) t.users

abbrev pub IsErased : String → Tables → Type 0
IsErased user_id t = IsDeleted user_id t × IsLockedOut user_id t

deactivate-facts :
    (at : DateTime) (u v : User) → deactivate at u ≡ ok v → (v.id ≡ u.id) × (v.deleted_at ≢ none)
unfolding deactivate
deactivate-facts at u v h = ground arith

Tx-deactivate_now :
    {C : Type 0} {P E : Rel} (u : User)
    → ((c t : Tables) → P c t → E c t)
    → Tx {C = C} P (deactivate_now u) (λ v c t. P c t × ((v.id ≡ u.id) × (v.deleted_at ≢ none))) E
unfolding deactivate_now
Tx-deactivate_now u fail =
    Tx-if (is_none u.deleted_at) _ _
      (λ _. Tx-bind Tx-now λ at. Tx-lift _ (λ v c t e p. (p, deactivate-facts at u v e)) fail)
      (λ _. Tx-raise _ fail)

IsDeleted-update :
    (user_id : String) (d : Option DateTime) (at : DateTime) (t : Tables)
    → d ≢ none
    → IsDeleted user_id
        (modify_user user_id (λ m. record (record m { deleted_at = d }) { updated_at = at }) t)
IsDeleted-update user_id d at t h =
    All-update_where (λ u. (u.id ≢ user_id) ⊎ (u.deleted_at ≢ none)) (has_user_id user_id)
      (λ m. record m { deleted_at = d; updated_at = at }) (λ u _. inr h)
      (λ u n. ground (arith, eq_iff u.id user_id)) t.users

Tx-soft_delete :
    {C : Type 0} {P E : Rel} (user_id : String) (v : User)
    → v.id ≡ user_id
    → v.deleted_at ≢ none
    → ((c t : Tables) → P c t → E c t)
    → ((c t : Tables) (rows : List UserModel) → P c t → P c (record t { users = rows }))
    → ((c t : Tables) → P c t → E c c)
    → Tx {C = C} P
        (update v (Field.deleted_at v.deleted_at ∷ []))
        (λ _ c t. P c t × IsDeleted user_id t)
        E
unfolding update
Tx-soft_delete {P} {E} user_id v same gone fail keep refused = rw same (
    Tx-save {R = λ c t. P c t × IsDeleted user_id t} user_id
      (set_attrs (Field.deleted_at v.deleted_at ∷ [])) fail
      (λ c t at p. (keep c t _ p, IsDeleted-update user_id v.deleted_at at t gone))
      (λ c t h. refused c t h.0))

module _ {C : Type 0} (env : Env C) where
  module _ (user_id : String) (c₀ : Tables) where
    Tx-delete_user :
        Tx
          (λ c t. c ≡ c₀)
          (delete_user env (build_session_revoker env) user_id)
          (λ _ c t. IsErased user_id c)
          (λ c t. (c ≡ c₀) ⊎ IsErased user_id c)
    unfolding delete_user build_session_revoker
    Tx-delete_user = Tx-bind (Tx-get_user user_id (λ c t p. inl p)) λ u. Tx-given λ same.
        Tx-bind (Tx-deactivate_now u (λ c t p. inl p)) λ v. Tx-given λ gone.
          Tx-bind {Q = λ _ c t. (c ≡ c₀) × IsDeleted user_id t}
            (Tx-soft_delete user_id v (gone.0 ∙ same) gone.1 (λ c t p. inl p) (λ c t rows p. p)
              (λ c t p. inl p))
            λ stored.
              Tx-bind
                (Tx-revoke_user_sessions env {R = λ c t. (c ≡ c₀) × IsDeleted user_id t} user_id
                  (λ c t rows h. h) (λ c t h. inl h.0) (λ c t h. inl h.0))
                λ _.
                  Tx-bind {Q = λ _ c t. IsErased user_id c} (Tx-commit (λ c t h. (h.0.1, h.1)))
                    λ _. Tx-delete env.cache _ (λ c t h. inr h)

  -- Deleting an account is one transaction: after a success every row of the user is soft-deleted
  -- and every session of the user carries a revocation time, and after an error of any kind the
  -- committed tables are either what they were or show all of that.
  pub delete_user_locks_out :
      (user_id : String) (w : World C)
      → Post
          (λ _ c t. IsErased user_id c)
          (λ c t. (c ≡ w.committed) ⊎ IsErased user_id c)
          (delete_user env (build_session_revoker env) user_id w)
  delete_user_locks_out user_id w = (Tx-delete_user user_id w.committed).at w refl
