-- ===== src/Wiring/Calls.antt =====
-- Methods of the objects of a request, each call on the session of the object that it is made on:
-- src/modules/users/service.py, src/modules/auth/service.py and session_revoker.py.
use async_pulse.Prelude.{String, [], ◌∷◌, if◌then◌else◌}
use async_pulse.Python.Action.{Action, pure, lift, ◌>>=◌, ◌>>◌}
use async_pulse.Db.Sessions.{Database, on_session}
use async_pulse.Db.Act.{commit}
use async_pulse.Env.{Env}
use async_pulse.Env.Cached.{delete}
use async_pulse.Users.Entities.{User, UserStatus, transition_to}
use async_pulse.Users.Repository as Users
use async_pulse.Users.Service.{get_user, is_lockout, deactivate_now, user_key}
use async_pulse.Auth.Repository as Sessions
use async_pulse.Auth.Revoker.{purge}
use async_pulse.Auth.Service.Logout.{purge_suppressed}
use async_pulse.Wiring.{AuthSessionRevoker, UserService, AuthService}

module _ {C : Type 0} (env : Env C) where
  -- The loop over the cache touches no session; it is run on that of the repository.
  unfoldable pub revoke_user_sessions : AuthSessionRevoker → String → Action (Database C) (Unit {0})
  revoke_user_sessions revoker user_id = do
    active ← on_session revoker.repository.session (Sessions.get_active_sessions_for_user user_id)
    on_session revoker.repository.session (Sessions.revoke_all_sessions user_id)
    on_session revoker.repository.session (purge env active)

  unfoldable pub change_status : UserService → String → UserStatus → Action (Database C) User
  unfolding revoke_user_sessions
  change_status service user_id new_status = do
    user ← on_session service.repository.session (get_user user_id)
    moved ← lift (transition_to new_status user)
    updated ← on_session service.repository.session (Users.set_status user_id moved.status)
    if is_lockout moved.status
        then revoke_user_sessions service.session_revoker user_id
        else pure tt
    on_session service.uow.session commit
    on_session service.repository.session (delete env.cache (user_key user_id))
    pure updated

  unfoldable pub delete_user : UserService → String → Action (Database C) (Unit {0})
  unfolding revoke_user_sessions
  delete_user service user_id = do
    user ← on_session service.repository.session (get_user user_id)
    gone ← on_session service.repository.session (deactivate_now user)
    stored ←
        on_session service.repository.session
          (Users.update gone (Users.Field.deleted_at gone.deleted_at ∷ []))
    revoke_user_sessions service.session_revoker user_id
    on_session service.uow.session commit
    on_session service.repository.session (delete env.cache (user_key user_id))

  unfoldable pub logout_all : AuthService → String → Action (Database C) (Unit {0})
  logout_all service user_id = do
    active ← on_session service.repository.session (Sessions.get_active_sessions_for_user user_id)
    on_session service.repository.session (Sessions.revoke_all_sessions user_id)
    on_session service.uow.session commit
    on_session service.repository.session (purge_suppressed env active)
