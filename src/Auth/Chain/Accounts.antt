-- ===== src/Auth/Chain/Accounts.antt =====
-- The use cases of src/modules/users/service.py keep the chains of sessions.
use async_pulse.Prelude.{String, Bool, Option, none, some, List, [], ◌∷◌, ◌++◌, any}
use async_pulse.Db.Act.{flush, commit, pure, ◌>>=◌}
use async_pulse.Db.Act.Tx.{
  Tx, Tx-bind, Tx-pure, Tx-raise, Tx-now, Tx-draw, Tx-uuid4, Tx-write, Tx-commit, Tx-query, Tx-lift,
  Tx-or_raise, Tx-require, Tx-if,
}
use async_pulse.Db.Act.Tx.Flush.{Tx-flush_checked}
use async_pulse.Db.Act.Tx.Weaken.{Tx-weaken}
use async_pulse.Env.{Env}
use async_pulse.Env.Cached.{delete, Tx-delete}
use async_pulse.Shared.Security.{hash_password}
use async_pulse.Users.Entities.{User, UserStatus, is_none}
use async_pulse.Users.Models.{UserModel}
use async_pulse.Users.Repository
use async_pulse.Users.Repository.{
  Field, find_live, get_by_id, get_by_email, get_by_username, get_by_email_or_username, save,
  is_forbidden, set_attrs,
}
use async_pulse.Users.Repository.Effects.{Tx-find_live}
use async_pulse.Users.Schemas.{UserCreate, UserUpdate}
use async_pulse.Users.Service.{
  refuse_existing, get_user, refuse_taken, email_field, username_field, lock_out, is_lockout,
  deactivate_now, create_user, apply_fields, update_user, set_password, change_status, delete_user,
}
use async_pulse.Auth.Locked.{Tx-get_active_sessions}
use async_pulse.Auth.Lockout.{Tx-purge}
use async_pulse.Auth.Revoker.{revoke_user_sessions, build_session_revoker}
use async_pulse.Auth.Chain.Invariant.{SessionInvariant}
use async_pulse.Auth.Chain.Writes.{Good, Pending, Tx-revoke_all}

module _ ⦃inv : SessionInvariant⦄ {C : Type 0} where
  -- The flush after a write that leaves the sessions alone.
  Tx-flush_users : Tx {C = C} Pending flush (λ _. Good) Good
  Tx-flush_users = Tx-flush_checked (λ c t p h. (p.0, (h, p.1 h))) (λ c t p. (p.0, p.0))

  Tx-save :
      (user_id : String) (f : UserModel → UserModel)
      → Tx {C = C} Good (save user_id f) (λ _. Good) Good
  unfolding save
  Tx-save user_id f = Tx-bind (Tx-query _) λ rows.
      Tx-bind {Q = λ _. Good} (Tx-lift _ (λ a c t e h. h.0) (λ c t h. h.0)) λ m.
        Tx-bind Tx-now λ at.
          Tx-bind {Q = λ _. Pending} (Tx-write _ (λ c t g. (g.0, λ _. g.1.1)))
            λ _. Tx-bind Tx-flush_users λ _. Tx-pure _ (λ c t p. p)

  Tx-update :
      (u : User) (fields : List Field)
      → Tx {C = C} Good (Repository.update u fields) (λ _. Good) Good
  unfolding Repository.update
  Tx-update u fields =
      Tx-if (any is_forbidden fields) _ _ (λ _. Tx-raise _ (λ c t p. p))
        (λ _. Tx-save u.id (set_attrs fields))

  Tx-create :
      (user_id address : String) (full_name : Option String) (handle hash : String)
      (state : UserStatus)
      → Tx {C = C} Good
          (Repository.create user_id address full_name handle hash state)
          (λ _. Good)
          Good
  unfolding Repository.create
  Tx-create user_id address full_name handle hash state = Tx-bind Tx-now λ made.
      Tx-bind Tx-now λ at.
        Tx-bind {Q = λ _. Pending} (Tx-write _ (λ c t g. (g.0, λ _. g.1.1)))
          λ _. Tx-bind Tx-flush_users λ _. Tx-pure _ (λ c t p. p)

  Tx-read : (p : UserModel → Bool) → Tx {C = C} Good (find_live p) (λ _. Good) Good
  Tx-read p = Tx-weaken (λ _ c t h. h.0) (Tx-find_live (λ c t p. p) p)

  pub Tx-get_user : (user_id : String) → Tx {C = C} Good (get_user user_id) (λ _. Good) Good
  unfolding get_user get_by_id
  Tx-get_user user_id =
      Tx-bind (Tx-read _) λ found. Tx-or_raise _ found (λ u c t e p. p) (λ c t p. p)

  Tx-refuse_existing :
      (payload : UserCreate) (o : Option User)
      → Tx {C = C} Good (refuse_existing payload o) (λ _. Good) Good
  unfolding refuse_existing
  Tx-refuse_existing payload none = Tx-pure _ (λ c t p. p)
  Tx-refuse_existing payload (some u) = Tx-raise _ (λ c t p. p)

  Tx-refuse_taken :
      (user_id message : String) (o : Option User)
      → Tx {C = C} Good (refuse_taken user_id message o) (λ _. Good) Good
  unfolding refuse_taken
  Tx-refuse_taken user_id message none = Tx-pure _ (λ c t p. p)
  Tx-refuse_taken user_id message (some u) =
      Tx-weaken (λ _ c t h. h.0) (Tx-require _ _ (λ c t p. p))

  Tx-email_field :
      (user_id : String) (o : Option String)
      → Tx {C = C} Good (email_field user_id o) (λ _. Good) Good
  unfolding email_field get_by_email
  Tx-email_field user_id none = Tx-pure _ (λ c t p. p)
  Tx-email_field user_id (some email) =
      Tx-bind (Tx-read _)
        λ existing. Tx-bind (Tx-refuse_taken user_id _ existing) λ _. Tx-pure _ (λ c t p. p)

  Tx-username_field :
      (user_id : String) (o : Option String)
      → Tx {C = C} Good (username_field user_id o) (λ _. Good) Good
  unfolding username_field get_by_username
  Tx-username_field user_id none = Tx-pure _ (λ c t p. p)
  Tx-username_field user_id (some username) =
      Tx-bind (Tx-read _)
        λ existing. Tx-bind (Tx-refuse_taken user_id _ existing) λ _. Tx-pure _ (λ c t p. p)

  Tx-deactivate_now : (u : User) → Tx {C = C} Good (deactivate_now u) (λ _. Good) Good
  unfolding deactivate_now
  Tx-deactivate_now u =
      Tx-if (is_none u.deleted_at) _ _
        (λ _. Tx-bind Tx-now λ at. Tx-lift _ (λ a c t e p. p) (λ c t p. p))
        (λ _. Tx-raise _ (λ c t p. p))

  Tx-committed : Tx {C = C} Good commit (λ _. Good) Good
  Tx-committed = Tx-commit (λ c t p. (p.1, p.1))

module _ ⦃inv : SessionInvariant⦄ {C : Type 0} (env : Env C) where
  Tx-hash_password : (password : String) → Tx Good (hash_password env password) (λ _. Good) Good
  unfolding hash_password
  Tx-hash_password password = Tx-bind Tx-draw λ n. Tx-or_raise _ _ (λ a c t e p. p) (λ c t p. p)

  -- The end of each command: the commit, the deletion from the cache, the result.
  Tx-finish :
      {A : Type 0} (key : String) (a : A)
      → Tx Good (commit >>= λ _. delete env.cache key >>= λ _. pure a) (λ _. Good) Good
  Tx-finish key a =
      Tx-bind Tx-committed
        λ _. Tx-bind (Tx-delete env.cache key (λ c t p. p)) λ _. Tx-pure a (λ c t p. p)

  pub Tx-create_user : (payload : UserCreate) → Tx Good (create_user env payload) (λ _. Good) Good
  unfolding create_user get_by_email_or_username
  Tx-create_user payload = Tx-bind (Tx-read _) λ existing.
      Tx-bind (Tx-refuse_existing payload existing) λ _. Tx-bind Tx-uuid4 λ user_id.
        Tx-bind (Tx-hash_password payload.password) λ hash.
          Tx-bind (Tx-create _ _ _ _ _ _) λ u. Tx-bind Tx-committed λ _. Tx-pure _ (λ c t p. p)

  Tx-apply_fields :
      (user_id : String) (u : User) (fields : List Field)
      → Tx Good (apply_fields env user_id u fields) (λ _. Good) Good
  unfolding apply_fields
  Tx-apply_fields user_id u [] = Tx-pure _ (λ c t p. p)
  Tx-apply_fields user_id u (f ∷ fs) = Tx-bind (Tx-update u (f ∷ fs)) λ updated. Tx-finish _ updated

  pub Tx-update_user :
      (user_id : String) (payload : UserUpdate)
      → Tx Good (update_user env user_id payload) (λ _. Good) Good
  unfolding update_user
  Tx-update_user user_id payload = Tx-bind (Tx-get_user user_id) λ u.
      Tx-bind (Tx-email_field user_id payload.email) λ email.
        Tx-bind (Tx-username_field user_id payload.username)
          λ username. Tx-apply_fields user_id u (email ++ username)

  pub Tx-set_password :
      (user_id password : String) → Tx Good (set_password env user_id password) (λ _. Good) Good
  unfolding set_password Repository.set_credentials
  Tx-set_password user_id password = Tx-bind (Tx-get_user user_id) λ u.
      Tx-bind (Tx-hash_password password)
        λ hash. Tx-bind (Tx-save user_id _) λ updated. Tx-finish _ updated

  Tx-revoke_user_sessions :
      (user_id : String) → Tx Good (revoke_user_sessions env user_id) (λ _. Good) Good
  unfolding revoke_user_sessions
  Tx-revoke_user_sessions user_id =
      Tx-bind (Tx-get_active_sessions user_id)
        λ active. Tx-bind (Tx-revoke_all user_id) λ _. Tx-purge env active (λ c t p. p)

  Tx-lock_out :
      (user_id : String) (s : UserStatus)
      → Tx Good (lock_out (build_session_revoker env) user_id s) (λ _. Good) Good
  unfolding lock_out build_session_revoker
  Tx-lock_out user_id s =
      Tx-if (is_lockout s) _ _ (λ _. Tx-revoke_user_sessions user_id) (λ _. Tx-pure _ (λ c t p. p))

  pub Tx-change_status :
      (user_id : String) (s : UserStatus)
      → Tx Good (change_status env (build_session_revoker env) user_id s) (λ _. Good) Good
  unfolding change_status Repository.set_status
  Tx-change_status user_id s = Tx-bind (Tx-get_user user_id) λ u.
      Tx-bind {Q = λ _. Good} (Tx-lift _ (λ a c t e p. p) (λ c t p. p)) λ moved.
        Tx-bind (Tx-save user_id _)
          λ updated. Tx-bind (Tx-lock_out user_id moved.status) λ _. Tx-finish _ updated

  pub Tx-delete_user :
      (user_id : String)
      → Tx Good (delete_user env (build_session_revoker env) user_id) (λ _. Good) Good
  unfolding delete_user build_session_revoker
  Tx-delete_user user_id = Tx-bind (Tx-get_user user_id) λ u. Tx-bind (Tx-deactivate_now u) λ gone.
      Tx-bind (Tx-update gone _) λ stored.
        Tx-bind (Tx-revoke_user_sessions user_id)
          λ _. Tx-bind Tx-committed λ _. Tx-delete env.cache _ (λ c t p. p)
