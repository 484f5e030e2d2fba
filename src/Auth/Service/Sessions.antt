-- ===== src/Auth/Service/Sessions.antt =====
-- src/modules/auth/service.py: what the use cases share: cache keys, errors, and the two ways in
-- which the service makes a session entity.
use async_pulse.Prelude.{String, ◌⧺◌, Option, none, if◌then◌else◌}
use async_pulse.Python.Result.{Error, app}
use async_pulse.Python.DateTime.{DateTime}
use async_pulse.Db.Act.{Act, pure, now, ◌>>=◌}
use async_pulse.Auth.Entities.{UserSession, is_revoked, revoke}
use async_pulse.Auth.Exceptions.{invalid_token_error}

abbrev pub session_key : String → String
session_key id = "session:" ⧺ id

abbrev pub grace_key : String → String
grace_key id = "grace:" ⧺ id

abbrev pub invalid_token : String → Error
invalid_token message = app (invalid_token_error message)

-- `old_session.revoke()`, which reads the clock only for a session that is not revoked.
unfoldable pub revoke_now : {C : Type 0} → UserSession → Act C UserSession
revoke_now s = if is_revoked s then pure s else (do at ← now; pure (revoke at s))

-- `UserSession(...)` with no `created_at`, no `revoked_at`.
unfoldable pub start_session :
    {C : Type 0}
    → String
    → String
    → DateTime
    → Option String
    → Option String
    → Option String
    → Act C UserSession
start_session session_id user_id expires_at device_info ip_address previous = do
  created_at ← now
  pure (record {
    id = session_id;
    user_id = user_id;
    expires_at = expires_at;
    device_info = device_info;
    ip_address = ip_address;
    created_at = created_at;
    revoked_at = none;
    previous_session_id = previous;
  })
