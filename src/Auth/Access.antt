-- ===== src/Auth/Access.antt =====
-- Who passes `get_current_user` and the role guards, and which tokens do not.
use async_pulse.Prelude.{ℕ, String, ◌≡◌, ◌↔◌, ◌⊎◌, refl, true, Option, none, some, arith}
use async_pulse.Python.Result.{Result, ok, err}
use async_pulse.Python.DateTime.{aware}
use async_pulse.Db.World.{World, skip, reading}
use async_pulse.Db.Act.{basic_actions}
use async_pulse.Env.{Env, Payload, stamped}
use async_pulse.Shared.Security.{claims, decode_token}
use async_pulse.Users.Entities.{
  User, UserStatus, active, UserRole, user, admin, superuser, role_hierarchy, role_value,
  status_value, to_status, to_role,
}
use async_pulse.Auth.Entities.{SessionValidation, validation_is_active}
use async_pulse.Auth.Service.Sessions.{invalid_token}
use async_pulse.Auth.Service.Refresh.{refresh_claims, refresh_token}
use async_pulse.Auth.Gate.{
  identity_dict, cached_user, access_claims, find_session, get_current_user, require_role,
}

module _ {C : Type 0} (env : Env C) where
  -- A token whose claims are those of a refresh token is no access token: the gate refuses it, and
  -- leaves the tables alone.
  pub gate_refuses_refresh_token :
      (token subject : String) (expire : ℕ) (session_id : Option String) (w : World C)
      → env.jwt.decode (reading w 0) token env.settings.secret_key
        ≡ some (stamped (claims subject expire "refresh" session_id))
      → let (r, w') = get_current_user env token w in
        (r ≡ err (invalid_token "Token is not an access token"))
        × (w'.committed ≡ w.committed)
        × (w'.tx ≡ w.tx)
  unfolding get_current_user decode_token access_claims claims basic_actions
  gate_refuses_refresh_token token subject expire session_id w h = ground (arith, h)

  -- A token whose claims are those of an access token is no refresh token: no session is rotated, and
  -- the tables are left alone.
  pub refresh_refuses_access_token :
      (token subject : String) (expire : ℕ) (session_id ip : Option String) (w : World C)
      → env.jwt.decode (reading w 0) token env.settings.secret_key
        ≡ some (stamped (claims subject expire "access" session_id))
      → let (r, w') = refresh_token env (record { refresh_token = token }) ip w in
        (r ≡ err (invalid_token "Token is not a refresh token"))
        × (w'.committed ≡ w.committed)
        × (w'.tx ≡ w.tx)
  unfolding refresh_token decode_token refresh_claims claims basic_actions
  refresh_refuses_access_token token subject expire session_id ip w h = ground (arith, h)

-- A role guard lets through exactly the users whose role ranks at least as high as the one that it
-- requires: a superuser always, anybody where `user` is required, and an admin where `admin` is.
pub require_role_iff :
    (required : UserRole) (u : User)
    → (require_role required u ≡ ok u)
      ↔ ((u.role ≡ superuser) ⊎ ((required ≡ user) ⊎ ((u.role ≡ admin) × (required ≡ admin))))
unfolding require_role role_hierarchy
require_role_iff required u = ground arith

to_status-status_value : (s : UserStatus) → to_status (status_value s) ≡ ok s
unfolding to_status status_value
to_status-status_value UserStatus.pending_verification = refl
to_status-status_value active = refl
to_status-status_value UserStatus.suspended = refl
to_status-status_value UserStatus.banned = refl

to_role-role_value : (r : UserRole) → to_role (role_value r) ≡ ok r
unfolding to_role role_value
to_role-role_value user = refl
to_role-role_value admin = refl
to_role-role_value superuser = refl

-- What is cached of an identity reads back as the same id, email, status and role.
pub cached_user-identity_dict :
    (u : User)
    → cached_user (identity_dict u)
      ≡ ok (record u {
        username = "";
        name = some "";
        hashed_password = "";
        deleted_at = none;
        created_at = none;
        updated_at = none;
      })
unfolding cached_user identity_dict
cached_user-identity_dict u = rw (to_status-status_value u.status, to_role-role_value u.role) refl

-- The session that let a request through: this request looked it up for the claim `sid`, in the
-- state in which it arrived but for one reading of the clock; it belongs to the claimed user, and was
-- active at the reading that followed the lookup.
pub record Admitted {C : Type 0} (env : Env C) (token : String) (w : World C) : Type 0 where
  pub payload : Payload
  pub user_id : String
  pub session_id : String
  pub session : SessionValidation
  pub after : World C
  pub decodes : env.jwt.decode (reading w 0) token env.settings.secret_key ≡ some payload
  pub carries : access_claims payload ≡ ok (user_id, session_id)
  pub looked_up :
      find_session env session_id (record w { reads = skip 1 w.reads }) ≡ (ok (some session), after)
  pub active_then : validation_is_active (aware (reading after 0)) session ≡ true
  pub owned : session.user_id ≡ user_id
