-- ===== src/Main/Domain.antt =====
-- The exception classes that the code raises, and what a client is told for each of them.
use async_pulse.Prelude.{
  Option, ℕ, String, ◌⧺◌, ◌≡◌, ◌≢◌, refl, none, ◌≤◌, ◌<◌, sym, Bool-cases, arith, ◌==◌,
  if◌then◌else◌, inl, inr,
}
use async_pulse.Python.Result.{AppError, app as app_exception}
use async_pulse.Python.Text.{upper}
use async_pulse.Python.DateTime.{DateTime}
use async_pulse.Python.Codec.{Codec}
use async_pulse.Core.Settings.{Settings}
use async_pulse.Core.Handlers.{
  Request, raised, returns, raises, Phrases, json_error, app_error_code,
}
use async_pulse.Core.Middleware.{CorsOptions}
use async_pulse.Shared.Exceptions.{
  not_found_error, authentication_error, authorization_error, conflict_error, validation_error,
}
use async_pulse.Users.Exceptions.{
  user_not_found_error, user_already_exists_error, insufficient_permissions_error,
  user_already_inactive_error, invalid_status_transition_error, user_suspended_error,
  user_banned_error, user_deactivation_error, user_not_verified_error,
}
use async_pulse.Auth.Exceptions.{invalid_credentials_error, invalid_token_error}
use async_pulse.Main.{FastApi, Serves}
use async_pulse.Main.Answers.{answer, unknown_route, app_error_is_answered, app_error-not_found}

-- The exceptions of src/modules, each with the arguments of its class.
pub data IsDomainError : AppError → Type 0 where
  user_not_found : (user_id : String) → IsDomainError (user_not_found_error user_id)
  user_already_exists : (detail : String) → IsDomainError (user_already_exists_error detail)
  insufficient_permissions :
      (message : String) → IsDomainError (insufficient_permissions_error message)
  user_already_inactive : (user_id : String) → IsDomainError (user_already_inactive_error user_id)
  invalid_status_transition :
      (user_id from_status to_status : String)
      → IsDomainError (invalid_status_transition_error user_id from_status to_status)
  user_deactivation : IsDomainError user_deactivation_error
  user_suspended : (detail : Option String) → IsDomainError (user_suspended_error detail)
  user_banned : (detail : Option String) → IsDomainError (user_banned_error detail)
  user_not_verified : (detail : Option String) → IsDomainError (user_not_verified_error detail)
  invalid_credentials : (detail : Option String) → IsDomainError (invalid_credentials_error detail)
  invalid_token : (message : String) → IsDomainError (invalid_token_error message)

-- The error code that belongs to a status.
abbrev pub code_of : ℕ → String
code_of status_code =
    if status_code == 401
    then "UNAUTHORIZED"
    else if status_code == 403
    then "FORBIDDEN"
    else if status_code == 404
    then "NOT_FOUND"
    else if status_code == 409
    then "CONFLICT"
    else if status_code == 422
    then "VALIDATION_FAILED"
    else "HTTP_ERROR"

-- A client error with the code of its status.
abbrev ClientError : ℕ → String → Type 0
ClientError status_code code =
    400 ≤ status_code × status_code < 500 × (status_code ≢ 405) × (code ≡ code_of status_code)

unauthorized : ClientError 401 "UNAUTHORIZED"
unauthorized = (omega arith, omega arith, omega arith, refl)

forbidden : ClientError 403 "FORBIDDEN"
forbidden = (omega arith, omega arith, omega arith, refl)

not_found : ClientError 404 "NOT_FOUND"
not_found = (omega arith, omega arith, omega arith, refl)

conflict : ClientError 409 "CONFLICT"
conflict = (omega arith, omega arith, omega arith, refl)

unprocessable : ClientError 422 "VALIDATION_FAILED"
unprocessable = (omega arith, omega arith, omega arith, refl)

IsDomainError-ClientError :
    (exc : AppError) → IsDomainError exc → ClientError exc.status_code (app_error_code exc)
unfolding app_error_code upper not_found_error authentication_error authorization_error
    conflict_error validation_error user_not_found_error user_already_exists_error
    insufficient_permissions_error user_already_inactive_error invalid_status_transition_error
    user_suspended_error user_banned_error user_deactivation_error user_not_verified_error
    invalid_credentials_error invalid_token_error
IsDomainError-ClientError _ (user_not_found user_id) = not_found
IsDomainError-ClientError _ (user_already_exists detail) = conflict
IsDomainError-ClientError _ (insufficient_permissions message) = forbidden
IsDomainError-ClientError _ (user_already_inactive user_id) = unprocessable
IsDomainError-ClientError _ (invalid_status_transition user_id from_status to_status) =
    unprocessable
IsDomainError-ClientError _ user_deactivation = unprocessable
IsDomainError-ClientError _ (user_suspended detail) = unauthorized
IsDomainError-ClientError _ (user_banned detail) = unauthorized
IsDomainError-ClientError _ (user_not_verified detail) = unauthorized
IsDomainError-ClientError _ (invalid_credentials detail) = unauthorized
IsDomainError-ClientError _ (invalid_token message) = unauthorized

module _ {B : Type 0} (fastapi : FastApi B) (serves : Serves fastapi) (settings : Settings)
    (codec : Codec) (phrases : Phrases) (clock : ℕ → DateTime) (request : Request)
    (no_preflight : (options : CorsOptions) → fastapi.preflight options request ≡ none) where
  -- Every exception of the modules is answered with its own status, a client error, and the error
  -- code of that status; the message is its own where the status is not 404, and else names the path.
  pub domain_error_is_answered :
      (exc : AppError)
      → IsDomainError exc
      → (400 ≤ exc.status_code)
        × (exc.status_code < 500)
        × (answer fastapi serves settings codec phrases clock request no_preflight
              (raises (raised (app_exception exc)))
            ≡ returns (
                if exc.status_code == 404
                then json_error codec
                    (clock 1)
                    404
                    ("Route not found: " ⧺ request.path)
                    (code_of 404)
                    none
                else json_error codec
                    (clock 0)
                    exc.status_code
                    exc.message
                    (code_of exc.status_code)
                    none))
  unfolding unknown_route
  domain_error_is_answered exc d =
      let (low, high, h₅, code) = IsDomainError-ClientError exc d in
      (
        low,
        high,
        elim (Bool-cases (exc.status_code == 404)) [
          | inl h ↦ rw (h) (
              app_error-not_found fastapi serves settings codec phrases clock request no_preflight
                exc (ground arith))
          | inr h ↦
              rw (sym code, h)
                (app_error_is_answered fastapi serves settings codec phrases clock request
                  no_preflight exc (ground arith) h₅)
        ],
      )
