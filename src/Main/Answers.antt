-- ===== src/Main/Answers.antt =====
-- What a client is told when a route raises: the handlers of src/core/exception_handlers.py behind
-- the middleware of src/core/middleware.py, as src/main.py puts them together.
use async_pulse.Prelude.{
  ℕ, String, ◌⧺◌, ◌≡◌, ◌≢◌, refl, false, Option, none, some, List, [], ◌∷◌, map, ◌∙◌, ap,
}
use async_pulse.Python.Result.{
  Error, AppError, app as app_exception, key_error, value_error, type_error, assertion_error,
  dbapi_error, no_result_found, multiple_results_found, pydantic_error, redis_error, os_error,
  jwt_error, recursion_error,
}
use async_pulse.Python.DateTime.{DateTime}
use async_pulse.Python.Codec.{Codec}
use async_pulse.Core.Settings.{Settings}
use async_pulse.Core.Handlers.{
  Request, raised, http_exception, request_validation_error, ErrorDetail, Response, Outcome,
  returns, raises, http_detail, status_code_map, find, Phrases, json_error, app_error_code,
  tailored_error, http_exception_handler, app_error_handler, validation_exception_handler,
  unhandled_exception_handler, envelope,
}
use async_pulse.Core.Middleware.{
  CorsOptions, rewrap, catch_starlette_errors, add_cors_middleware, add_starlette_error_middleware,
}
use async_pulse.Core.Middleware.Rewrap.{rewrap-other, rewrap-not_found}
use async_pulse.Shared.Responses.{FieldError, timestamp, error_response, errors_to_include}
use async_pulse.Main.{exception_class, mro, app, FastApi, Serves}

-- What a route makes of a request is an answer with status 404.
pub data IsNotFound {B : Type 0} : Outcome B → Type 0 where
  by_domain_error :
      (exc : AppError) → exc.status_code ≡ 404 → IsNotFound (raises (raised (app_exception exc)))
  by_http_exception : (detail : String) → IsNotFound (raises (http_exception 404 detail))
  by_response : (r : Response B) → r.status_code ≡ 404 → IsNotFound (returns r)

mro-other :
    (e : Error) → ((exc : AppError) → e ≢ app_exception exc) → mro (raised e) ≡ exception_class ∷ []
mro-other (app_exception exc) h = elim (h exc refl) [ ]
mro-other key_error h = refl
mro-other value_error h = refl
mro-other type_error h = refl
mro-other assertion_error h = refl
mro-other dbapi_error h = refl
mro-other no_result_found h = refl
mro-other multiple_results_found h = refl
mro-other pydantic_error h = refl
mro-other redis_error h = refl
mro-other os_error h = refl
mro-other jwt_error h = refl
mro-other recursion_error h = refl

-- The entries of `errors`, in their order; without any, the key is left out.
abbrev pub listed : List ErrorDetail → Option (List FieldError)
listed [] = none
listed (e ∷ es) = some (tailored_error e ∷ map tailored_error es)

module _ {B : Type 0} (fastapi : FastApi B) (serves : Serves fastapi) (settings : Settings)
    (codec : Codec) (phrases : Phrases) (clock : ℕ → DateTime) (request : Request)
    (no_preflight : (options : CorsOptions) → fastapi.preflight options request ≡ none) where
  unfoldable pub answer : Outcome B → Outcome B
  answer = fastapi.serve (app settings codec phrases) clock request

  app_error_answer :
      (exc : AppError)
      → answer (raises (raised (app_exception exc)))
        ≡ returns (
            rewrap codec
              (clock 1)
              request
              (json_error codec (clock 0) exc.status_code exc.message (app_error_code exc) none))
  unfolding answer app add_cors_middleware add_starlette_error_middleware catch_starlette_errors
      app_error_handler
  app_error_answer exc =
      rw
        (
          serves (app settings codec phrases) clock request (raises (raised (app_exception exc))),
          no_preflight _,
        )
        refl

  http_exception_answer :
      (status_code : ℕ) (detail : String)
      → answer (raises (http_exception status_code detail))
        ≡ returns (
            rewrap codec (clock 1) request (
              json_error codec
                (clock 0)
                status_code
                (http_detail request.path status_code detail)
                (find status_code "HTTP_ERROR" (status_code_map phrases))
                none))
  unfolding answer app add_cors_middleware add_starlette_error_middleware catch_starlette_errors
      http_exception_handler
  http_exception_answer status_code detail =
      rw
        (
          serves (app settings codec phrases) clock request
              (raises (http_exception status_code detail)),
          no_preflight _,
        )
        refl

  validation_answer :
      (errors : List ErrorDetail)
      → answer (raises (request_validation_error errors))
        ≡ returns (
            rewrap codec (clock 1) request (
              json_error codec
                (clock 0)
                422
                "Validation failed"
                "VALIDATION_FAILED"
                (some (map tailored_error errors))))
  unfolding answer app add_cors_middleware add_starlette_error_middleware catch_starlette_errors
      validation_exception_handler
  validation_answer errors =
      rw
        (
          serves (app settings codec phrases) clock request
              (raises (request_validation_error errors)),
          no_preflight _,
        )
        refl

  unfoldable pub unknown_route : Response B
  unfolding json_error
  unknown_route =
      json_error codec (clock 1) 404 ("Route not found: " ⧺ request.path) "NOT_FOUND" none

  answer-returns :
      (r : Response B) → answer (returns r) ≡ returns (rewrap codec (clock 1) request r)
  unfolding answer app add_cors_middleware add_starlette_error_middleware catch_starlette_errors
  answer-returns r =
      rw (serves (app settings codec phrases) clock request (returns r), no_preflight _) refl

  -- A domain error whose status is neither 404 nor 405 is answered with its own status and message,
  -- and with its error code in capitals, or the name of its class where it has none.
  pub app_error_is_answered :
      (exc : AppError)
      → exc.status_code ≢ 404
      → exc.status_code ≢ 405
      → answer (raises (raised (app_exception exc)))
        ≡ returns (json_error codec (clock 0) exc.status_code exc.message (app_error_code exc) none)
  unfolding json_error
  app_error_is_answered exc h₄ h₅ =
      app_error_answer exc ∙ ap returns (rewrap-other codec (clock 1) request _ h₄ h₅)

  pub app_error-not_found :
      (exc : AppError)
      → exc.status_code ≡ 404
      → answer (raises (raised (app_exception exc))) ≡ returns unknown_route
  unfolding json_error unknown_route
  app_error-not_found exc h =
      app_error_answer exc ∙ ap returns (rewrap-not_found codec (clock 1) request _ h)

  -- Whatever a domain error, an `HTTPException` or a route says with status 404, the client is told
  -- "Route not found" and the path.
  pub not_found_loses_its_message :
      (outcome : Outcome B) → IsNotFound outcome → answer outcome ≡ returns unknown_route
  unfolding json_error unknown_route
  not_found_loses_its_message _ (by_domain_error exc h) = app_error-not_found exc h
  not_found_loses_its_message _ (by_http_exception detail) =
      http_exception_answer 404 detail
      ∙ ap returns (rewrap-not_found codec (clock 1) request _ refl)
  not_found_loses_its_message _ (by_response r h) =
      answer-returns r ∙ ap returns (rewrap-not_found codec (clock 1) request r h)

  -- An exception that is neither a domain error nor one of FastAPI is answered with status 500 and
  -- the same text for all of them.
  pub unexpected_error_is_answered :
      (e : Error)
      → ((exc : AppError) → e ≢ app_exception exc)
      → answer (raises (raised e))
        ≡ returns (
            json_error codec
              (clock 2)
              500
              "An unexpected error occurred"
              "INTERNAL_SERVER_ERROR"
              none)
  unfolding answer app add_cors_middleware add_starlette_error_middleware catch_starlette_errors
      unhandled_exception_handler
  unexpected_error_is_answered e h =
      rw
        (
          serves (app settings codec phrases) clock request (raises (raised e)),
          no_preflight _,
          mro-other e h,
        )
        refl

  -- A request that fails its validation is answered with status 422 and an entry for each error, in
  -- their order; without any, the key is left out.
  pub invalid_request_is_answered :
      (errors : List ErrorDetail)
      → answer (raises (request_validation_error errors))
        ≡ returns (record {
          status_code = 422;
          content = envelope (record {
            success = false;
            message = "Validation failed";
            error_code = "VALIDATION_FAILED";
            errors = listed errors;
            timestamp = timestamp codec (clock 0);
          });
        })
  unfolding validation_exception_handler json_error rewrap error_response errors_to_include
  invalid_request_is_answered [] = validation_answer []
  invalid_request_is_answered (e ∷ es) = validation_answer (e ∷ es)
