-- ===== src/Auth/Service/Logout.antt =====
-- src/modules/auth/service.py: `AuthService.logout` and `logout_all`.
use async_pulse.Prelude.{String, none, some, List, [], ◌∷◌}
use async_pulse.Db.Act.{Act, pure, suppress, commit, ◌>>=◌, ◌>>◌}
use async_pulse.Env.{Env}
use async_pulse.Env.Cached.{delete}
use async_pulse.Auth.Entities.{UserSession}
use async_pulse.Auth.Repository.{
  get_session_by_id, get_active_sessions_for_user, update_session, revoke_all_sessions,
}
use async_pulse.Auth.Service.Sessions.{session_key, grace_key, revoke_now}

module _ {C : Type 0} (env : Env C) where
  unfoldable pub purge_suppressed : List UserSession → Act C (Unit {0})
  purge_suppressed [] = pure tt
  purge_suppressed (s ∷ rest) = do
    suppress (delete env.cache (session_key s.id))
    suppress (delete env.cache (grace_key s.id))
    purge_suppressed rest

  unfoldable pub logout_all : String → Act C (Unit {0})
  logout_all user_id = do
    active ← get_active_sessions_for_user user_id
    revoke_all_sessions user_id
    commit
    purge_suppressed active

  unfoldable pub logout_session : String → UserSession → Act C (Unit {0})
  logout_session session_id s = do
    revoked ← revoke_now s
    stored ← update_session revoked
    commit
    suppress (delete env.cache (session_key session_id))
    suppress (delete env.cache (grace_key session_id))

  unfoldable pub logout : String → Act C (Unit {0})
  logout session_id = do
    found ← get_session_by_id session_id
    elim found [ none ↦ pure tt | some s ↦ logout_session session_id s ]
