-- ===== src/Wiring/Transaction.antt =====
-- The objects of one request share its session, so what a service and the revoker of another module
-- write is one transaction.
use async_pulse.Prelude.{ℕ, ◌<◌, String, ◌≡◌, refl, ◌∙◌, Bool, true, false, if◌then◌else◌}
use mathlib.Core.Path.{fun_ext}
use async_pulse.Python.Result.{Result}
use async_pulse.Python.Action.{Action, pure}
use async_pulse.Db.Act.{Act, in_session}
use async_pulse.Db.Sessions.{Database, AsyncSession, view, on_session, get_async_session}
use async_pulse.Db.Sessions.Shared.{
  lift-on_session, pure-on_session, then_shared, session-in_session,
}
use async_pulse.Env.{Env}
use async_pulse.Users.Entities.{UserStatus, transition_to}
use async_pulse.Users.Service as Users_service
use async_pulse.Users.Service.{get_user, is_lockout, lock_out, deactivate_now, user_key}
use async_pulse.Auth.Revoker as Revoker
use async_pulse.Auth.Revoker.{purge, build_session_revoker}
use async_pulse.Auth.Service.Logout as Logout
use async_pulse.Auth.Service.Logout.{purge_suppressed}
use async_pulse.Wiring.{
  AuthSessionRevoker, UserService, AuthService, Resolved, SolvesOnce, get_unit_of_work,
  get_user_service, get_auth_repository, get_auth_service, make_auth_service, make_session_revoker,
}
use async_pulse.Wiring.Calls.{revoke_user_sessions, change_status, delete_user, logout_all}

-- Objects over one session.
abbrev revoker_on : AsyncSession → AuthSessionRevoker
revoker_on s = record { repository = record { session = s } }

abbrev users_on : AsyncSession → UserService
users_on s = record {
  repository = record { session = s };
  uow = record { session = s };
  session_revoker = revoker_on s;
}

abbrev auth_on : AsyncSession → AuthService
auth_on s = record {
  repository = record { session = s };
  users = users_on s;
  uow = record { session = s };
}

module _ {C : Type 0} (env : Env C) (s : AsyncSession) where
  revoke-shared :
      (user_id : String)
      → revoke_user_sessions env (revoker_on s) user_id
        ≡ on_session s (Revoker.revoke_user_sessions env user_id)
  unfolding revoke_user_sessions Revoker.revoke_user_sessions
  revoke-shared user_id = then_shared s _ _ _ _ refl λ active. then_shared s _ _ _ _ refl λ _. refl

  lock_out-shared :
      (user_id : String) (st : UserStatus)
      → (if is_lockout st then revoke_user_sessions env (revoker_on s) user_id else pure tt)
        ≡ on_session s (lock_out (build_session_revoker env) user_id st)
  unfolding lock_out build_session_revoker
  lock_out-shared user_id st = here (is_lockout st)
    where
      here :
          (b : Bool)
          → (if b then revoke_user_sessions env (revoker_on s) user_id else pure tt)
            ≡ on_session s (if b then Revoker.revoke_user_sessions env user_id else pure tt)
      here true = revoke-shared user_id
      here false = pure-on_session s tt

  change_status-shared :
      (user_id : String) (st : UserStatus)
      → change_status env (users_on s) user_id st
        ≡ on_session s (Users_service.change_status env (build_session_revoker env) user_id st)
  unfolding change_status Users_service.change_status
  change_status-shared user_id st = then_shared s _ _ _ _ refl λ user.
      then_shared s _ _ _ _ (lift-on_session s (transition_to st user)) λ moved.
        then_shared s _ _ _ _ refl λ updated.
          then_shared s _ _ _ _ (lock_out-shared user_id moved.status) λ _.
            then_shared s _ _ _ _ refl
              λ _. then_shared s _ _ _ _ refl λ _. pure-on_session s updated

  delete_user-shared :
      (user_id : String)
      → delete_user env (users_on s) user_id
        ≡ on_session s (Users_service.delete_user env (build_session_revoker env) user_id)
  unfolding delete_user Users_service.delete_user build_session_revoker
  delete_user-shared user_id = then_shared s _ _ _ _ refl λ user. then_shared s _ _ _ _ refl λ gone.
      then_shared s _ _ _ _ refl λ stored.
        then_shared s _ _ _ _ (revoke-shared user_id) λ _. then_shared s _ _ _ _ refl λ _. refl

  logout_all-shared :
      (user_id : String)
      → logout_all env (auth_on s) user_id ≡ on_session s (Logout.logout_all env user_id)
  unfolding logout_all Logout.logout_all
  logout_all-shared user_id =
      then_shared s _ _ _ _ refl
        λ active. then_shared s _ _ _ _ refl λ _. then_shared s _ _ _ _ refl λ _. refl

module _ (solve : AsyncSession → Resolved) (once : SolvesOnce solve) (s : AsyncSession) where
  user_service-shared : (solve s).user_service ≡ users_on s
  unfolding get_user_service get_unit_of_work make_session_revoker
  user_service-shared = once.user_service s ∙ rw (once.uow s, once.session s) refl

  auth_service-shared : (solve s).auth_service ≡ auth_on s
  unfolding get_auth_service get_auth_repository get_unit_of_work make_auth_service
  auth_service-shared =
      once.auth_service s
      ∙ rw (once.auth_repository s, user_service-shared, once.uow s, once.session s) refl

-- A request that runs `m` on objects of its own behaves as `m` does in a session, and leaves the
-- sessions of other requests alone.
abbrev pub RunsInSession : {C A : Type 0} → Result A × Database C → Act C A → Database C → Type 0
RunsInSession (r, b') m b =
    let (r', w') = in_session m (view (record { number = b.opened }) b) in
    (r ≡ r')
    × (b'.committed ≡ w'.committed)
    × (b'.cache ≡ w'.cache)
    × ((k : ℕ) → k < b.opened → b'.tx k ≡ b.tx k)

module _ {C : Type 0} (env : Env C) (solve : AsyncSession → Resolved) (once : SolvesOnce solve)
    (b : Database C) where
  runs :
      {A : Type 0} (request : AsyncSession → Action (Database C) A) (m : Act C A)
      → ((s : AsyncSession) → request s ≡ on_session s m)
      → RunsInSession (get_async_session request b) m b
  runs request m h = rw (fun_ext h) (session-in_session m b)

  -- The objects that FastAPI builds for a request share one session: changing a status, deleting an
  -- account and logging out everywhere, each call on the session of its object, run as they do on one
  -- transaction, the revocation by the other module included, and leave the sessions of other requests
  -- alone. FastAPI calls each dependency once in a request.
  pub services_share_session :
      (user_id : String) (st : UserStatus)
      → RunsInSession
          (get_async_session (λ s. change_status env (solve s).user_service user_id st) b)
          (Users_service.change_status env (build_session_revoker env) user_id st)
          b
        × RunsInSession
            (get_async_session (λ s. delete_user env (solve s).user_service user_id) b)
            (Users_service.delete_user env (build_session_revoker env) user_id)
            b
        × RunsInSession
            (get_async_session (λ s. logout_all env (solve s).auth_service user_id) b)
            (Logout.logout_all env user_id)
            b
  services_share_session user_id st = (
    runs _ _ (λ s. rw (user_service-shared solve once s) (change_status-shared env s user_id st)),
    runs _ _ (λ s. rw (user_service-shared solve once s) (delete_user-shared env s user_id)),
    runs _ _ (λ s. rw (auth_service-shared solve once s) (logout_all-shared env s user_id)),
  )
