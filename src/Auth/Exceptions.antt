-- ===== src/Auth/Exceptions.antt =====
-- src/modules/auth/exceptions.py
use async_pulse.Prelude.{String, Option}
use async_pulse.Users.Exceptions.{given_or}
use async_pulse.Python.Result.{AppError}
use async_pulse.Shared.Exceptions.{authentication_error}

-- Without an argument, it has the default message of `AuthenticationError`.
unfoldable pub invalid_credentials_error : Option String → AppError
unfolding authentication_error
invalid_credentials_error message =
    authentication_error "InvalidCredentialsError" (given_or "Invalid credentials" message)

unfoldable pub invalid_token_error : String → AppError
unfolding authentication_error
invalid_token_error message = authentication_error "InvalidTokenError" message
