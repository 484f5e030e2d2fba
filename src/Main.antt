-- ===== src/Main.antt =====
-- src/main.py: the application that it puts together, and what FastAPI makes of it.
pub mod Answers
pub mod Domain
pub mod Routes
use async_pulse.Prelude.{ℕ, String, ◌≡◌, Bool, Option, none, some, List, [], ◌∷◌, if◌then◌else◌}
use async_pulse.Python.Result.{Result, ok, err, app as app_exception}
use async_pulse.Python.DateTime.{DateTime}
use async_pulse.Python.Codec.{Codec}
use async_pulse.Core.Settings.{Settings}
use async_pulse.Shared.Responses.{SuccessResponse, success_response}
use async_pulse.Core.Handlers.{
  Request, Raised, raised, http_exception, request_validation_error, Response, body, Outcome,
  returns, raises, Phrases, http_exception_handler, app_error_handler, validation_exception_handler,
  unhandled_exception_handler,
}
use async_pulse.Core.Middleware.{
  CorsOptions, Middleware, cors, base_http, add_cors_middleware, add_starlette_error_middleware,
}

pub data ExceptionClass : Type 0 where
  app_error_class http_exception_class request_validation_error_class exception_class :
      ExceptionClass

abbrev pub Handlers : Type 0 → Type 0
Handlers B = List (ExceptionClass × (DateTime → Request → Raised → Outcome B))

-- What the module's calls leave: the middleware and the handlers, in the order of the calls.
pub record App (B : Type 0) : Type 0 where
  pub middleware : List (Middleware B)
  pub handlers : Handlers B

module _ (settings : Settings) (codec : Codec) (phrases : Phrases) {B : Type 0} where
  unfoldable pub app : App B
  unfolding add_cors_middleware add_starlette_error_middleware
  app = record {
    middleware = add_starlette_error_middleware codec (add_cors_middleware settings []);
    handlers =
        (app_error_class, app_error_handler codec)
        ∷ (http_exception_class, http_exception_handler codec phrases)
        ∷ (request_validation_error_class, validation_exception_handler codec)
        ∷ (exception_class, unhandled_exception_handler codec)
        ∷ [];
  }

module _ (settings : Settings) (codec : Codec) where
  -- `GET /health`: the status and the version.
  unfoldable pub health_check : DateTime → SuccessResponse (List (String × String))
  health_check now =
      success_response codec now (("status", "healthy") ∷ ("version", settings.app_version) ∷ [])
        "Service is healthy"

-- The classes of an exception that a handler can be registered for, nearest first.
abbrev pub mro : Raised → List ExceptionClass
mro (raised (app_exception exc)) = app_error_class ∷ exception_class ∷ []
mro (raised e) = exception_class ∷ []
mro (http_exception status_code detail) = http_exception_class ∷ exception_class ∷ []
mro (request_validation_error errors) = request_validation_error_class ∷ exception_class ∷ []

abbrev pub same_class : ExceptionClass → ExceptionClass → Bool
same_class app_error_class app_error_class = Bool.true
same_class http_exception_class http_exception_class = Bool.true
same_class request_validation_error_class request_validation_error_class = Bool.true
same_class exception_class exception_class = Bool.true
same_class c d = Bool.false

abbrev pub is_base : ExceptionClass → Bool
is_base = same_class exception_class

module _ {B : Type 0} where
  abbrev pub handler_of :
      ExceptionClass → Handlers B → Option (DateTime → Request → Raised → Outcome B)
  handler_of c [] = none
  handler_of c ((d, h) ∷ hs) = let rest = handler_of c hs in if same_class c d then some h else rest

  -- FastAPI's dispatch inside the middleware: the handler of the nearest class. The one of
  -- `Exception` is not among them, it stands outside the middleware.
  abbrev pub handled : Handlers B → List ExceptionClass → DateTime → Request → Raised → Outcome B
  handled hs [] now request exc = raises exc
  handled hs (c ∷ cs) now request exc =
      let rest = handled hs cs now request exc in
      if is_base c
      then rest
      else elim (handler_of c hs) [ none ↦ rest | some h ↦ h now request exc ]

  abbrev pub on_raise : (Raised → Outcome B) → Outcome B → Outcome B
  on_raise h (returns response) = returns response
  on_raise h (raises exc) = h exc

  -- The middleware around what answers a request; what is added later stands outside. `preflight`
  -- is what `CORSMiddleware` answers by itself.
  abbrev pub wrapped :
      (CorsOptions → Request → Option (Response B))
      → DateTime
      → List (Middleware B)
      → (Request → Outcome B)
      → Request
      → Outcome B
  wrapped preflight now [] call request = call request
  wrapped preflight now (cors options ∷ ms) call request =
      wrapped preflight now ms
        (λ r. elim (preflight options r) [ none ↦ call r | some response ↦ returns response ])
        request
  wrapped preflight now (base_http dispatch ∷ ms) call request =
      wrapped preflight now ms (λ r. dispatch now r call) request

-- What a route makes of a request, for the status code of its declaration: its value, as the body,
-- or its exception.
abbrev pub respond : {A B : Type 0} → ℕ → (A → B) → Result A → Outcome B
respond status_code f (ok a) = returns (record { status_code = status_code; content = body (f a) })
respond status_code f (err e) = raises (raised e)

-- FastAPI, as a parameter: `serve` is given an application, the readings of the clock in the
-- handlers (0), the middleware (1) and the handler of `Exception` (2), a request, and what its
-- route made of it.
pub record FastApi (B : Type 0) : Type 0 where
  pub serve : App B → (ℕ → DateTime) → Request → Outcome B → Outcome B
  pub preflight : CorsOptions → Request → Option (Response B)

-- Its documented layers: the handlers by class inside, the middleware around them, the handler of
-- `Exception` outside.
abbrev pub Serves : {B : Type 0} → FastApi B → Type 0
Serves {B = B} fastapi =
    (a : App B) (clock : ℕ → DateTime) (request : Request) (outcome : Outcome B)
    → fastapi.serve a clock request outcome
      ≡ on_raise
          (λ exc. elim (handler_of exception_class a.handlers) [
            | none ↦ raises exc
            | some h ↦ h (clock 2) request exc
          ])
          (wrapped fastapi.preflight (clock 1) a.middleware
            (λ r. on_raise (λ exc. handled a.handlers (mro exc) (clock 0) r exc) outcome) request)
