-- ===== src/Auth/Entities.antt =====
-- src/modules/auth/entities.py: the session entity, and its projection for the cache. Properties
-- that read the clock take the reading, `now`, as an argument.
pub mod Laws
use async_pulse.Prelude.{
  String, Bool, true, false, not, ◌&&◌, Option, none, some, [], ◌∷◌, if◌then◌else◌,
}
use async_pulse.Python.Result.{Result, ok, err, value_error, or_raise, ◌>>=◌}
use async_pulse.Python.DateTime.{DateTime, as_utc, later}
use async_pulse.Python.Codec.{Codec}
use async_pulse.Python.Obj.{Obj, get, item, to_str, is_truthy}

pub record SessionValidation : Type 0 where
  pub id : String
  pub user_id : String
  pub expires_at : DateTime
  pub revoked_at : Option DateTime

pub record UserSession : Type 0 where
  pub id : String
  pub user_id : String
  pub expires_at : DateTime
  pub device_info : Option String
  pub ip_address : Option String
  pub created_at : DateTime
  pub revoked_at : Option DateTime
  pub previous_session_id : Option String

abbrev pub is_some : Option DateTime → Bool
is_some none = false
is_some (some _) = true

-- The properties of `SessionValidation`, and of `UserSession` below them.
unfoldable pub validation_is_expired : DateTime → SessionValidation → Bool
validation_is_expired now s = later now (as_utc s.expires_at)

unfoldable pub validation_is_revoked : SessionValidation → Bool
validation_is_revoked s = is_some s.revoked_at

unfoldable pub validation_is_active : DateTime → SessionValidation → Bool
unfolding validation_is_expired validation_is_revoked
validation_is_active now s = not (validation_is_expired now s) && not (validation_is_revoked s)

unfoldable pub is_expired : DateTime → UserSession → Bool
is_expired now s = later now (as_utc s.expires_at)

unfoldable pub is_revoked : UserSession → Bool
is_revoked s = is_some s.revoked_at

unfoldable pub is_active : DateTime → UserSession → Bool
unfolding is_expired is_revoked
is_active now s = not (is_expired now s) && not (is_revoked s)

unfoldable pub revoke : DateTime → UserSession → UserSession
revoke now s = record s { revoked_at = elim s.revoked_at [ some at ↦ some at | none ↦ some now ] }

unfoldable pub from_session : UserSession → SessionValidation
from_session s = record {
  id = s.id;
  user_id = s.user_id;
  expires_at = s.expires_at;
  revoked_at = s.revoked_at;
}

module _ (codec : Codec) where
  iso_or_none : Option DateTime → Option String
  iso_or_none none = none
  iso_or_none (some d) = some (codec.isoformat d)

  unfoldable pub to_dict : SessionValidation → Obj
  unfolding iso_or_none
  to_dict s =
      ("id", some s.id)
      ∷ ("user_id", some s.user_id)
      ∷ ("expires_at", some (codec.isoformat s.expires_at))
      ∷ ("revoked_at", iso_or_none s.revoked_at)
      ∷ []

  pub parse_datetime : String → Result DateTime
  parse_datetime s = or_raise value_error (codec.fromisoformat s)

  optional_datetime : Option String → Result (Option DateTime)
  unfolding parse_datetime
  optional_datetime v =
      if is_truthy v then (do d ← parse_datetime (to_str v); ok (some d)) else ok none

  unfoldable pub from_dict : Obj → Result SessionValidation
  unfolding parse_datetime optional_datetime
  from_dict o = do
    id ← item "id" o
    user_id ← item "user_id" o
    expires ← item "expires_at" o
    expires_at ← parse_datetime (to_str expires)
    revoked_at ← optional_datetime (get "revoked_at" o)
    ok (record {
      id = to_str id;
      user_id = to_str user_id;
      expires_at = expires_at;
      revoked_at = revoked_at;
    })
