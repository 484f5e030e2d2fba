-- ===== src/Tests/Answers.antt =====
-- What clients are told, in a FastAPI that does what its documentation says.
use async_pulse.Prelude.{ℕ, ◌≡◌, refl, none, some, List, [], ◌∷◌, ◌≤◌, ◌<◌}
use async_pulse.Python.Result.{app as app_exception}
use async_pulse.Python.DateTime.{DateTime, aware}
use async_pulse.Python.Text.{replace, upper}
use async_pulse.Shared.Responses.{FieldError}
use async_pulse.Shared.Exceptions.{authentication_error}
use async_pulse.Core.Handlers.{
  Request, raised, http_exception, ErrorDetail, key, index, Outcome, returns, raises, Phrases,
  json_error, http_exception_handler, http_detail, status_code_map,
}
use async_pulse.Users.Exceptions.{user_suspended_error}
use async_pulse.Users.Router.{UserRead, create_user}
use async_pulse.Main.{
  exception_class, FastApi, Serves, handler_of, handled, mro, on_raise, wrapped, respond,
}
use async_pulse.Main.Answers.{answer, unknown_route, by_http_exception, not_found_loses_its_message}
use async_pulse.Main.Domain.{user_suspended, domain_error_is_answered}
use async_pulse.Main.Routes.{reused_email_is_server_error}
use async_pulse.Tests.Sample.{codec, settings, env}
use async_pulse.Tests.Accounts.{ann_again, after_deletion}

abbrev fastapi : FastApi UserRead
fastapi = record {
  preflight = λ options r. none;
  serve = λ a clock r outcome.
      on_raise
        (λ exc. elim (handler_of exception_class a.handlers) [
          | none ↦ raises exc
          | some h ↦ h (clock 2) r exc
        ])
        (wrapped (λ options s. none) (clock 1) a.middleware
          (λ s. on_raise (λ exc. handled a.handlers (mro exc) (clock 0) s exc) outcome) r);
}

fastapi-Serves : Serves fastapi
fastapi-Serves a clock r outcome = refl

abbrev phrases : Phrases
phrases = (404, "Not Found") ∷ (405, "Method Not Allowed") ∷ []

abbrev clock : ℕ → DateTime
clock n = aware n

abbrev get_u7 : Request
get_u7 = record { method = "GET"; path = "/api/v1/users/u7" }

abbrev patch_u2 : Request
patch_u2 = record { method = "PATCH"; path = "/api/v1/users/u2" }

abbrev post_user : Request
post_user = record { method = "POST"; path = "/api/v1/users/" }

abbrev told : Request → Outcome UserRead → Outcome UserRead
told r = answer fastapi fastapi-Serves settings codec phrases clock r (λ options. refl)

domain_error_is_answered_example :
    (400 ≤ 401)
    × (401 < 500)
    × (told get_u7 (raises (raised (app_exception (user_suspended_error none))))
        ≡ returns
            (json_error codec (aware 0) 401 "User account has been suspended" "UNAUTHORIZED" none))
unfolding user_suspended_error authentication_error
domain_error_is_answered_example =
    domain_error_is_answered fastapi fastapi-Serves settings codec phrases clock get_u7
      (λ options. refl) (user_suspended_error none) (user_suspended none)

-- The handler of `HTTPException` hints at the double slash, and the middleware drops the hint.
abbrev double_slash : Request
double_slash = record { method = "GET"; path = "//api/v1/users/" }

not_found_loses_its_message_example :
    told double_slash (raises (http_exception 404 "Not Found"))
    ≡ returns (json_error codec (aware 1) 404 "Route not found: //api/v1/users/" "NOT_FOUND" none)
unfolding unknown_route
not_found_loses_its_message_example =
    not_found_loses_its_message fastapi fastapi-Serves settings codec phrases clock double_slash
      (λ options. refl) (raises (http_exception 404 "Not Found")) (by_http_exception "Not Found")

hint_is_lost :
    http_exception_handler codec {B = UserRead} phrases
      (aware 0)
      double_slash
      (http_exception 404 "Not Found")
    ≡ returns (
        json_error codec
          (aware 0)
          404
          "Route not found: '//api/v1/users/'. Hint: possible double-slash in URL. Ensure base URL has no trailing slash (e.g., 'http://localhost:8000' not 'http://localhost:8000/')."
          "NOT_FOUND"
          none)
unfolding http_exception_handler http_detail status_code_map json_error replace upper
hint_is_lost = refl

-- A body with an email that is no address, in a path that is no UUID.
abbrev two_errors : List ErrorDetail
two_errors =
    record { loc = some (key "path" ∷ key "user_id" ∷ []); msg = none; type = some "uuid_parsing" }
    ∷ record {
      loc = some (key "body" ∷ key "tags" ∷ index 10 ∷ []);
      msg = some "short";
      type = some "";
    }
    ∷ []

abbrev two_fields : List FieldError
two_fields =
    record { field_ = "user_id"; message = "Invalid value"; rule = "uuid_parsing" }
    ∷ record { field_ = "tags.10"; message = "short"; rule = "invalid" }
    ∷ []

reused_email_is_server_error_example :
    told post_user (respond 201 (λ u. u) (create_user env ann_again after_deletion).0)
    ≡ returns
        (json_error codec (aware 2) 500 "An unexpected error occurred" "INTERNAL_SERVER_ERROR" none)
reused_email_is_server_error_example =
    reused_email_is_server_error fastapi fastapi-Serves env phrases clock post_user
      (λ options. refl) (λ u. u) after_deletion ann_again "saltsecret" refl refl refl
