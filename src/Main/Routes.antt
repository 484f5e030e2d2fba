-- ===== src/Main/Routes.antt =====
-- What a client is told by routes of src/modules/users/router.py that fail.
use async_pulse.Prelude.{
  ℕ, suc, String, ◌⧺◌, ◌≡◌, ◌≢◌, true, ◌&&◌, none, some, [], map, select, arith,
}
use async_pulse.Python.Result.{ok, err, app, dbapi_error}
use async_pulse.Python.DateTime.{DateTime}
use async_pulse.Db.Tables.{has}
use async_pulse.Db.World.{World}
use async_pulse.Db.Act.{basic_actions}
use async_pulse.Env.{Env}
use async_pulse.Users.Entities.{User, superuser}
use async_pulse.Users.Exceptions.{user_not_found_error, insufficient_permissions_error}
use async_pulse.Shared.Exceptions.{not_found_error, authorization_error}
use async_pulse.Users.Repository.{has_user_id, is_live, find_live, get_by_id}
use async_pulse.Users.Registration.{holders, create_user_reused_email}
use async_pulse.Users.Schemas.{UserCreate, UserUpdate}
use async_pulse.Users.Service
use async_pulse.Users.Router.{UserRead, get_user, create_user, patch_route}
use async_pulse.Users.Router.Access.{request, patch_needs_ownership}
use async_pulse.Auth.Gate.{get_current_user}
use async_pulse.Core.Handlers.{Phrases, Request, Outcome, returns, json_error}
use async_pulse.Core.Middleware.{CorsOptions}
use async_pulse.Main.{FastApi, Serves, respond}
use async_pulse.Main.Answers.{answer, unexpected_error_is_answered}
use async_pulse.Main.Domain.{user_not_found, insufficient_permissions, domain_error_is_answered}

get_user-missing :
    {C : Type 0} (w : World C) (user_id : String)
    → select (λ m. has_user_id user_id m && is_live m) w.tx.users ≡ []
    → (get_user user_id w).0 ≡ err (app (user_not_found_error user_id))
unfolding get_user Service.get_user get_by_id find_live basic_actions
get_user-missing w user_id missing = ground (arith, missing)

module _ {B C : Type 0} (fastapi : FastApi B) (serves : Serves fastapi) (env : Env C)
    (phrases : Phrases) (clock : ℕ → DateTime) (r : Request)
    (no_preflight : (options : CorsOptions) → fastapi.preflight options r ≡ none)
    (to_body : UserRead → B) (w : World C) where
  abbrev told : Outcome B → Outcome B
  told = answer fastapi serves env.settings env.codec phrases clock r no_preflight

  -- Asking for a user that no live row has is answered like a path that no route has: the message
  -- that names the user is not part of the answer.
  pub missing_user_is_unknown_route :
      (user_id : String)
      → select (λ m. has_user_id user_id m && is_live m) w.tx.users ≡ []
      → told (respond 200 to_body (get_user user_id w).0)
        ≡ returns
            (json_error env.codec (clock 1) 404 ("Route not found: " ⧺ r.path) "NOT_FOUND" none)
  unfolding user_not_found_error not_found_error
  missing_user_is_unknown_route user_id missing = rw (get_user-missing w user_id missing) (
      (domain_error_is_answered fastapi serves env.settings env.codec phrases clock r no_preflight _
        (user_not_found user_id)).2)

  -- Somebody who passes the gate, but is neither the owner of the profile nor a superuser, is told so
  -- with status 403.
  pub strangers_patch_is_forbidden :
      (token user_id : String) (w' : World C) (current : User) (payload : UserUpdate)
      → get_current_user env token (request w) ≡ (ok current, w')
      → current.id ≢ user_id
      → current.role ≢ superuser
      → told (respond 200 to_body (patch_route env token user_id payload w).0)
        ≡ returns (
            json_error env.codec
              (clock 0)
              403
              "Cannot update other users' profile"
              "FORBIDDEN"
              none)
  unfolding insufficient_permissions_error authorization_error
  strangers_patch_is_forbidden token user_id w' current payload passed other plain =
      rw ((patch_needs_ownership env token user_id w w' current passed payload other plain).0) (
        (domain_error_is_answered fastapi serves env.settings env.codec phrases clock r no_preflight
          _ (insufficient_permissions _)).2)

  create_user-reused :
      (payload : UserCreate) (hash : String)
      → env.bcrypt.hashpw payload.password (env.bcrypt.gensalt (suc w.drawn)) ≡ some hash
      → holders payload w.tx ≡ []
      → has (map (λ u. u.email) w.tx.users) payload.email ≡ true
      → (create_user env payload w).0 ≡ err dbapi_error
  unfolding create_user basic_actions
  create_user-reused payload hash hashed free taken =
      ground (arith, (create_user_reused_email env payload w hash hashed free taken).0)

  -- Registering with the email of a soft-deleted user is answered with status 500, where no live row
  -- holds the email or the username and the password is hashed.
  pub reused_email_is_server_error :
      (payload : UserCreate) (hash : String)
      → env.bcrypt.hashpw payload.password (env.bcrypt.gensalt (suc w.drawn)) ≡ some hash
      → holders payload w.tx ≡ []
      → has (map (λ u. u.email) w.tx.users) payload.email ≡ true
      → told (respond 201 to_body (create_user env payload w).0)
        ≡ returns (
            json_error env.codec
              (clock 2)
              500
              "An unexpected error occurred"
              "INTERNAL_SERVER_ERROR"
              none)
  reused_email_is_server_error payload hash hashed free taken =
      rw ((create_user-reused payload hash hashed free taken)) (
        unexpected_error_is_answered fastapi serves env.settings env.codec phrases clock r
          no_preflight dbapi_error (λ exc e. ground (arith, e)))
