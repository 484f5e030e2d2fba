-- ===== src/Auth/Revoker.antt =====
-- src/modules/auth/session_revoker.py
use async_pulse.Prelude.{String, List, [], ◌∷◌}
use async_pulse.Db.Act.{Act, pure, ◌>>=◌, ◌>>◌}
use async_pulse.Env.{Env}
use async_pulse.Env.Cached.{delete}
use async_pulse.Users.Service.{SessionRevoker}
use async_pulse.Auth.Entities.{UserSession}
use async_pulse.Auth.Repository.{get_active_sessions_for_user, revoke_all_sessions}
use async_pulse.Auth.Service.Sessions.{session_key, grace_key}

module _ {C : Type 0} (env : Env C) where
  unfoldable pub purge : List UserSession → Act C (Unit {0})
  purge [] = pure tt
  purge (s ∷ rest) = do
    delete env.cache (session_key s.id)
    delete env.cache (grace_key s.id)
    purge rest

  unfoldable pub revoke_user_sessions : String → Act C (Unit {0})
  revoke_user_sessions user_id = do
    active ← get_active_sessions_for_user user_id
    revoke_all_sessions user_id
    purge active

  unfoldable pub build_session_revoker : SessionRevoker C
  build_session_revoker = record { revoke_user_sessions = revoke_user_sessions }
