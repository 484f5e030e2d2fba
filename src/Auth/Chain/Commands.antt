-- ===== src/Auth/Chain/Commands.antt =====
-- Requests to src/modules/users/router.py, and the commands of src/modules/users/service.py, with a
-- route or without.
use async_pulse.Prelude.{String}
use async_pulse.Db.Act.{Act, pure, lift, ◌>>=◌}
use async_pulse.Db.Act.Tx.{Tx, Tx-bind, Tx-pure, Tx-lift, Tx-query, Tx-require}
use async_pulse.Db.Act.Tx.Weaken.{Tx-weaken}
use async_pulse.Env.{Env}
use async_pulse.Users.Entities.{UserStatus, superuser}
use async_pulse.Users.Repository
use async_pulse.Users.Service
use async_pulse.Users.Schemas.{UserCreate, UserUpdate}
use async_pulse.Users.Router
use async_pulse.Users.Router.{PageParams}
use async_pulse.Auth.Gate.{get_current_user, require_role}
use async_pulse.Auth.Gate.Keeps.{Tx-get_current_user}
use async_pulse.Auth.Revoker.{build_session_revoker}
use async_pulse.Auth.Chain.Invariant.{SessionInvariant}
use async_pulse.Auth.Chain.Writes.{Good}
use async_pulse.Auth.Chain.Accounts.{
  Tx-get_user, Tx-create_user, Tx-update_user, Tx-set_password, Tx-change_status, Tx-delete_user,
}

-- A request to one of the five routes.
pub data UserCall : Type 0 where
  register : (payload : UserCreate) → UserCall
  list : (pagination : PageParams) → UserCall
  show : (user_id : String) → UserCall
  patch : (authorization user_id : String) (payload : UserUpdate) → UserCall
  remove : (authorization user_id : String) → UserCall

-- What other code calls on the service.
pub data Command : Type 0 where
  set_password : (user_id new_password : String) → Command
  change_status : (user_id : String) (new_status : UserStatus) → Command
  delete : (user_id : String) → Command

module _ {C : Type 0} (env : Env C) where
  abbrev pub answered : UserCall → Act C (Unit {0})
  answered (register payload) = Router.create_user env payload >>= λ _. pure tt
  answered (list pagination) = Router.list_users pagination >>= λ _. pure tt
  answered (show user_id) = Router.get_user user_id >>= λ _. pure tt
  answered (patch authorization user_id payload) = get_current_user env authorization >>= λ u.
      Router.update_user env user_id payload u >>= λ _. pure tt
  answered (remove authorization user_id) = get_current_user env authorization >>= λ u.
      lift (require_role superuser u) >>= λ _.
      Service.delete_user env (build_session_revoker env) user_id

  abbrev pub executed : Command → Act C (Unit {0})
  executed (set_password user_id new_password) =
      Service.set_password env user_id new_password >>= λ _. pure tt
  executed (change_status user_id new_status) =
      Service.change_status env (build_session_revoker env) user_id new_status >>= λ _. pure tt
  executed (delete user_id) = Service.delete_user env (build_session_revoker env) user_id

module _ ⦃inv : SessionInvariant⦄ {C : Type 0} (env : Env C) where
  pub Tx-answered : (call : UserCall) → Tx Good (answered env call) (λ _. Good) Good
  unfolding Router.create_user Router.list_users Service.list_users Repository.list_users
      Router.get_user Router.update_user
  Tx-answered (register payload) =
      Tx-bind (Tx-bind (Tx-create_user env payload) λ u. Tx-lift _ (λ a c t e p. p) (λ c t p. p))
        λ _. Tx-pure _ (λ c t p. p)
  Tx-answered (list pagination) =
      Tx-bind
        (Tx-bind
          (Tx-bind (Tx-weaken (λ _ c t h. h.0) (Tx-query _)) λ total.
            Tx-bind (Tx-weaken (λ _ c t h. h.0) (Tx-query _)) λ models. Tx-pure _ (λ c t p. p))
          λ (users, total).
            Tx-bind {Q = λ _. Good} (Tx-lift _ (λ a c t e p. p) (λ c t p. p))
              λ items. Tx-pure _ (λ c t p. p))
        λ _. Tx-pure _ (λ c t p. p)
  Tx-answered (show user_id) =
      Tx-bind (Tx-bind (Tx-get_user user_id) λ u. Tx-lift _ (λ a c t e p. p) (λ c t p. p))
        λ _. Tx-pure _ (λ c t p. p)
  Tx-answered (patch authorization user_id payload) =
      Tx-bind (Tx-get_current_user env authorization) λ u.
        Tx-bind
          (Tx-bind (Tx-weaken (λ _ c t h. h.0) (Tx-require _ _ (λ c t p. p))) λ _.
            Tx-bind (Tx-update_user env user_id payload)
              λ v. Tx-lift _ (λ a c t e p. p) (λ c t p. p))
          λ _. Tx-pure _ (λ c t p. p)
  Tx-answered (remove authorization user_id) = Tx-bind (Tx-get_current_user env authorization) λ u.
      Tx-bind {Q = λ _. Good} (Tx-lift _ (λ a c t e p. p) (λ c t p. p))
        λ _. Tx-delete_user env user_id

  pub Tx-executed : (command : Command) → Tx Good (executed env command) (λ _. Good) Good
  Tx-executed (set_password user_id new_password) =
      Tx-bind (Tx-set_password env user_id new_password) λ _. Tx-pure _ (λ c t p. p)
  Tx-executed (change_status user_id new_status) =
      Tx-bind (Tx-change_status env user_id new_status) λ _. Tx-pure _ (λ c t p. p)
  Tx-executed (delete user_id) = Tx-delete_user env user_id
