-- ===== src/Core/Middleware.antt =====
-- src/core/middleware.py: what the `add_*` helpers add to the application, in the order of
-- the calls.
pub mod Rewrap
use async_pulse.Prelude.{String, ◌⧺◌, Bool, true, List, [], ◌∷◌, ◌++◌, none, ◌==◌, if◌then◌else◌}
use async_pulse.Python.DateTime.{DateTime}
use async_pulse.Python.Codec.{Codec}
use async_pulse.Core.Settings.{Settings}
use async_pulse.Core.Handlers.{Request, Response, Outcome, returns, raises, json_error}

pub record CorsOptions : Type 0 where
  pub allow_origins : List String
  pub allow_credentials : Bool
  pub allow_methods : List String
  pub allow_headers : List String

-- `CORSMiddleware` with its options, and `BaseHTTPMiddleware` with its `dispatch`, which is given
-- the clock, the request and `call_next`.
pub data Middleware (B : Type 0) : Type 0 where
  cors : CorsOptions → Middleware B
  base_http : (DateTime → Request → (Request → Outcome B) → Outcome B) → Middleware B

module _ (settings : Settings) {B : Type 0} where
  unfoldable pub add_cors_middleware : List (Middleware B) → List (Middleware B)
  add_cors_middleware stack =
      stack
      ++ (cors (record {
        allow_origins = settings.cors_origins;
        allow_credentials = true;
        allow_methods = "*" ∷ [];
        allow_headers = "*" ∷ [];
      })
          ∷ [])

module _ (codec : Codec) {B : Type 0} where
  -- What `_catch_starlette_errors` makes of a response.
  unfoldable pub rewrap : DateTime → Request → Response B → Response B
  unfolding json_error
  rewrap now request response =
      if response.status_code == 404
      then json_error codec now 404 ("Route not found: " ⧺ request.path) "NOT_FOUND" none
      else if response.status_code == 405
      then json_error codec now 405 "Method not allowed" "METHOD_NOT_ALLOWED" none
      else response

  unfoldable pub catch_starlette_errors : DateTime → Request → (Request → Outcome B) → Outcome B
  unfolding rewrap
  catch_starlette_errors now request call_next = elim (call_next request) [
    | returns response ↦ returns (rewrap now request response)
    | raises exc ↦ raises exc
  ]

  unfoldable pub add_starlette_error_middleware : List (Middleware B) → List (Middleware B)
  unfolding catch_starlette_errors
  add_starlette_error_middleware stack = stack ++ (base_http catch_starlette_errors ∷ [])
