-- ===== src/Core/Handlers.antt =====
-- src/core/exception_handlers.py: what a handler is given and answers, and the four handlers.
use text.Mathlib.Text.{starts_with}
use async_pulse.Prelude.{
  ℕ, String, ◌⧺◌, Option, none, some, List, [], ◌∷◌, map, length, drop, ltb, ◌==◌, if◌then◌else◌,
}
use async_pulse.Python.Result.{Error, app, AppError}
use async_pulse.Python.DateTime.{DateTime}
use async_pulse.Python.Obj.{is_truthy, to_str}
use async_pulse.Python.Codec.{Codec}
use async_pulse.Python.Text.{upper, mark_capitals, lstrip, replace, join, str_nat}
use async_pulse.Shared.Responses.{ErrorResponse, FieldError, error_response}

pub record Request : Type 0 where
  pub method : String
  pub path : String

-- An entry of `RequestValidationError.errors()`; `none` is a key that is missing.
pub data LocItem : Type 0 where
  key : String → LocItem
  index : ℕ → LocItem

pub record ErrorDetail : Type 0 where
  pub loc : Option (List LocItem)
  pub msg : Option String
  pub type : Option String

-- The exceptions that reach the handlers: those of the code, and two of FastAPI.
pub data Raised : Type 0 where
  raised : Error → Raised
  http_exception : (status_code : ℕ) (detail : String) → Raised
  request_validation_error : List ErrorDetail → Raised

-- A body is an error envelope, or what else a route or a library answers.
pub data Content (B : Type 0) : Type 0 where
  envelope : ErrorResponse → Content B
  body : B → Content B

pub record Response (B : Type 0) : Type 0 where
  pub status_code : ℕ
  pub content : Content B

-- A call that returns a response, or raises.
pub data Outcome (B : Type 0) : Type 0 where
  returns : Response B → Outcome B
  raises : Raised → Outcome B

-- `http.HTTPStatus`: the value and the phrase of each member.
abbrev pub Phrases : Type 0
Phrases = List (ℕ × String)

-- `dict.get(status, default)` of a dict that is built in the order of the list.
abbrev pub find : ℕ → String → Phrases → String
find status default [] = default
find status default ((n, s) ∷ ps) =
    let rest = find status s ps in
    let other = find status default ps in if n == status then rest else other

-- `_status_code_map()`
unfoldable pub status_code_map : Phrases → Phrases
status_code_map = map (λ (n, phrase). (n, upper (replace phrase " " "_")))

abbrev pub str_item : LocItem → String
str_item (key s) = s
str_item (index n) = str_nat n

-- `field_path`
unfoldable pub field_path : Option (List LocItem) → String
field_path none = ""
field_path (some loc) =
    if ltb 1 (length loc) then join "." (map str_item (drop 1 loc)) else join "." (map str_item loc)

-- `value or default` of a `str | None`
abbrev pub or_default : Option String → String → String
or_default v default = if is_truthy v then to_str v else default

unfoldable pub tailored_error : ErrorDetail → FieldError
unfolding field_path
tailored_error error = record {
  field_ = field_path error.loc;
  message = or_default error.msg "Invalid value";
  rule = or_default error.type "invalid";
}

-- The code of an `AppError`: its own in capitals, or else the name of its class.
unfoldable pub app_error_code : AppError → String
app_error_code exc =
    if is_truthy exc.error_code
    then upper (to_str exc.error_code)
    else upper (lstrip "_" (mark_capitals (replace exc.class_name "Error" "")))

-- The detail of an `HTTPException`: a 404 gets the path, and a hint where it starts with `//`.
unfoldable pub http_detail : String → ℕ → String → String
http_detail path status_code detail =
    if status_code == 404
    then (if starts_with path "//"
        then "Route not found: '" ⧺ path ⧺ "'. Hint: possible double-slash in URL. "
          ⧺ "Ensure base URL has no trailing slash "
          ⧺ "(e.g., 'http://localhost:8000' not 'http://localhost:8000/')."
        else "Route not found: " ⧺ path)
    else detail

module _ (codec : Codec) {B : Type 0} where
  -- `JSONResponse(status_code, error_response(message, error_code, errors))`
  unfoldable pub json_error : DateTime → ℕ → String → String → Option (List FieldError) → Response B
  json_error now status_code message error_code errors = record {
    status_code = status_code;
    content = envelope (error_response codec now message error_code errors);
  }

  unfoldable pub http_exception_handler : Phrases → DateTime → Request → Raised → Outcome B
  unfolding status_code_map http_detail json_error
  http_exception_handler phrases now request (http_exception status_code detail) = returns (
      json_error now status_code (http_detail request.path status_code detail)
        (find status_code "HTTP_ERROR" (status_code_map phrases)) none)
  http_exception_handler phrases now request exc = raises exc

  unfoldable pub app_error_handler : DateTime → Request → Raised → Outcome B
  unfolding app_error_code json_error
  app_error_handler now request (raised (app exc)) =
      returns (json_error now exc.status_code exc.message (app_error_code exc) none)
  app_error_handler now request exc = raises exc

  unfoldable pub validation_exception_handler : DateTime → Request → Raised → Outcome B
  unfolding tailored_error json_error
  validation_exception_handler now request (request_validation_error errors) = returns (
      json_error now 422 "Validation failed" "VALIDATION_FAILED" (some (map tailored_error errors)))
  validation_exception_handler now request exc = raises exc

  -- The log entry is not part of the model.
  unfoldable pub unhandled_exception_handler : DateTime → Request → Raised → Outcome B
  unfolding json_error
  unhandled_exception_handler now request exc =
      returns (json_error now 500 "An unexpected error occurred" "INTERNAL_SERVER_ERROR" none)
