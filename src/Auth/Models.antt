-- ===== src/Auth/Models.antt =====
-- src/modules/auth/models.py: a row of the table `sessions`.
use async_pulse.Prelude.{String, Option}
use async_pulse.Python.DateTime.{DateTime}

pub record SessionModel : Type 0 where
  pub id : String
  pub user_id : String
  pub device_info : Option String
  pub ip_address : Option String
  pub created_at : DateTime
  pub expires_at : DateTime
  pub revoked_at : Option DateTime
  pub previous_session_id : Option String
