-- ===== src/Users/Exceptions.antt =====
-- src/modules/users/exceptions.py
use async_pulse.Prelude.{String, Option, none, some, ◌⧺◌, str_eq, if◌then◌else◌}
use async_pulse.Python.Result.{AppError}
use async_pulse.Shared.Exceptions.{
  authentication_error, authorization_error, conflict_error, not_found_error, validation_error,
}

-- An optional argument, where it is given, and else its default.
abbrev pub given_or : String → Option String → String
given_or default none = default
given_or default (some s) = s

unfoldable pub user_not_found_error : String → AppError
unfolding not_found_error
user_not_found_error user_id = not_found_error "UserNotFoundError" "User" user_id

unfoldable pub user_already_exists_error : String → AppError
unfolding conflict_error
user_already_exists_error detail = conflict_error "UserAlreadyExistsError" detail

unfoldable pub insufficient_permissions_error : String → AppError
unfolding authorization_error
insufficient_permissions_error message = authorization_error "InsufficientPermissionsError" message

unfoldable pub user_already_inactive_error : String → AppError
unfolding validation_error
user_already_inactive_error user_id = validation_error "UserAlreadyInactiveError" (
    if str_eq user_id ""
    then "User is already inactive"
    else "User is already inactive: " ⧺ user_id)

unfoldable pub invalid_status_transition_error : String → String → String → AppError
unfolding validation_error
invalid_status_transition_error user_id from_status to_status =
    validation_error "InvalidStatusTransitionError"
      ("Cannot transition user " ⧺ user_id ⧺ " from " ⧺ from_status ⧺ " to " ⧺ to_status)

unfoldable pub user_suspended_error : Option String → AppError
unfolding authentication_error
user_suspended_error detail =
    authentication_error "UserSuspendedError" (given_or "User account has been suspended" detail)

unfoldable pub user_banned_error : Option String → AppError
unfolding authentication_error
user_banned_error detail =
    authentication_error "UserBannedError" (given_or "User account has been banned" detail)

unfoldable pub user_deactivation_error : AppError
unfolding validation_error
user_deactivation_error =
    validation_error "UserDeactivationError" "Cannot deactivate your own account"

unfoldable pub user_not_verified_error : Option String → AppError
unfolding authentication_error
user_not_verified_error detail =
    authentication_error "UserNotVerifiedError" (given_or "User email has not been verified" detail)
