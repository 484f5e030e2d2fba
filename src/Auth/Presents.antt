-- ===== src/Auth/Presents.antt =====
-- A refresh token that is presented to `AuthService.refresh_token`.
use async_pulse.Prelude.{String, ◌≡◌, some, [], ◌∷◌, select}
use async_pulse.Python.Result.{ok}
use async_pulse.Db.World.{World, reading}
use async_pulse.Env.{Env, Payload}
use async_pulse.Auth.Models.{SessionModel}
use async_pulse.Auth.Repository.{has_id}
use async_pulse.Auth.Service.Refresh.{refresh_claims}

module _ {C : Type 0} (env : Env C) where
  -- The token is read, and names a stored session and its user.
  pub record Presents (token : String) (p : Payload) (session_id user_id : String)
      (m : SessionModel) (w : World C) : Type 0 where
    pub decodes : env.jwt.decode (reading w 0) token env.settings.secret_key ≡ some p
    pub claims : refresh_claims p ≡ ok (session_id, user_id)
    pub stored : select (has_id session_id) w.tx.sessions ≡ m ∷ []
