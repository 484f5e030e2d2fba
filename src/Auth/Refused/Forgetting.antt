-- ===== src/Auth/Refused/Forgetting.antt =====
-- What `change_status` and `delete_user` of src/modules/users/service.py leave in a cache that keeps its
-- promise on deletions: not the identity of the user.
use async_pulse.Prelude.{any, String, List, [], ◌∷◌}
use async_pulse.Db.World.{World}
use async_pulse.Db.Act.Yields.{
  Yields, Yields-bind, Yields-pure, Yields-raise, Yields-lift, Yields-or_raise, Yields-query,
  Yields-if, Yields-now, Yields-write, Yields-flush, Yields-commit,
}
use async_pulse.Env.{Env}
use async_pulse.Env.Forgets.{Forgets}
use async_pulse.Env.Forgotten.{On, Yields-delete-IsUp, Yields-delete}
use async_pulse.Users.Entities.{User, UserStatus, is_none}
use async_pulse.Users.Models.{UserModel}
use async_pulse.Users.Repository.{
  Field, is_forbidden, set_attrs, find_live, get_by_id, save, set_status, update,
}
use async_pulse.Users.Service.{
  user_key, get_user, is_lockout, lock_out, change_status, deactivate_now, delete_user,
}
use async_pulse.Auth.Entities.{UserSession}
use async_pulse.Auth.Repository.{get_active_sessions_for_user, revoke_all_sessions}
use async_pulse.Auth.Revoker.{purge, revoke_user_sessions, build_session_revoker}

module _ {C : Type 0} (env : Env C) {IsUp : C → Type 0} {Lacks : String → C → Type 0}
    (forgets : Forgets env.cache IsUp Lacks) where
  -- While the status is changed, the cache stays up; at its end the identity is not in it.
  abbrev pub Up : World C → Type 0
  Up = On IsUp (λ t. Unit {0})

  Yields-get_user : (user_id : String) → Yields Up (get_user user_id) (λ _. Up)
  unfolding get_user get_by_id find_live
  Yields-get_user user_id =
      Yields-bind
        (Yields-bind (Yields-query _) λ rows. Yields-bind (Yields-lift _) λ m. Yields-pure _)
        λ found. Yields-or_raise _ found

  Yields-save :
      (user_id : String) (f : UserModel → UserModel) → Yields Up (save user_id f) (λ _. Up)
  unfolding save
  Yields-save user_id f = Yields-bind (Yields-query _) λ rows. Yields-bind (Yields-lift _) λ m.
      Yields-bind (Yields-now (λ w h. h)) λ at.
        Yields-bind (Yields-write _ (λ w h. h)) λ _. Yields-bind Yields-flush λ _. Yields-pure _

  Yields-purge : (l : List UserSession) → Yields Up (purge env l) (λ _. Up)
  unfolding purge
  Yields-purge [] = Yields-pure tt
  Yields-purge (s ∷ rest) =
      Yields-bind (Yields-delete-IsUp env.cache forgets (λ t. Unit {0}) _) λ _.
        Yields-bind (Yields-delete-IsUp env.cache forgets (λ t. Unit {0}) _) λ _. Yields-purge rest

  Yields-revoke :
      (user_id : String)
      → Yields Up ((build_session_revoker env).revoke_user_sessions user_id) (λ _. Up)
  unfolding build_session_revoker revoke_user_sessions get_active_sessions_for_user
      revoke_all_sessions
  Yields-revoke user_id =
      Yields-bind
        (Yields-bind (Yields-now (λ w h. h))
          λ at. Yields-bind (Yields-query _) λ models. Yields-pure _)
        λ active.
          Yields-bind
            (Yields-bind (Yields-now (λ w h. h))
              λ at. Yields-bind (Yields-write _ (λ w h. h)) λ _. Yields-flush)
            λ _. Yields-purge active

  Yields-lock_out :
      (user_id : String) (s : UserStatus)
      → Yields Up (lock_out (build_session_revoker env) user_id s) (λ _. Up)
  unfolding lock_out
  Yields-lock_out user_id s = Yields-if (is_lockout s) (Yields-revoke user_id) (Yields-pure tt)

  -- What a command that ends a user's access leaves.
  abbrev pub Forgotten : String → World C → Type 0
  Forgotten user_id = On (λ c. IsUp c × Lacks (user_key user_id) c) (λ t. Unit {0})

  pub Yields-change_status :
      (user_id : String) (s : UserStatus)
      → Yields Up (change_status env (build_session_revoker env) user_id s) (λ _. Forgotten user_id)
  unfolding change_status set_status
  Yields-change_status user_id s = Yields-bind (Yields-get_user user_id) λ u.
      Yields-bind (Yields-lift _) λ moved. Yields-bind (Yields-save user_id _) λ updated.
        Yields-bind (Yields-lock_out user_id moved.status) λ _.
          Yields-bind (Yields-commit (λ w h. h)) λ _.
            Yields-bind (Yields-delete env.cache forgets (λ t. Unit {0}) _) λ _. Yields-pure updated

  Yields-deactivate_now : (u : User) → Yields Up (deactivate_now u) (λ _. Up)
  unfolding deactivate_now
  Yields-deactivate_now u =
      Yields-if (is_none u.deleted_at) (Yields-bind (Yields-now (λ w h. h)) λ at. Yields-lift _)
        (Yields-raise _)

  Yields-update : (u : User) (fields : List Field) → Yields Up (update u fields) (λ _. Up)
  unfolding update
  Yields-update u fields =
      Yields-if (any is_forbidden fields) (Yields-raise _) (Yields-save u.id (set_attrs fields))

  pub Yields-delete_user :
      (user_id : String)
      → Yields Up (delete_user env (build_session_revoker env) user_id) (λ _. Forgotten user_id)
  unfolding delete_user
  Yields-delete_user user_id = Yields-bind (Yields-get_user user_id) λ u.
      Yields-bind (Yields-deactivate_now u) λ gone. Yields-bind (Yields-update gone _) λ stored.
        Yields-bind (Yields-revoke user_id) λ _.
          Yields-bind (Yields-commit (λ w h. h))
            λ _. Yields-delete env.cache forgets (λ t. Unit {0}) _
