-- ===== src/Shared/Responses.antt =====
-- src/shared/responses.py: the envelopes. A model object stands for the dict that pydantic dumps it
-- to; a `none` under `errors` is a key that is left out. `errors` lists `FieldError`s only.
use async_pulse.Prelude.{String, Bool, true, false, Option, none, some, List, [], ◌∷◌}
use async_pulse.Python.DateTime.{DateTime}
use async_pulse.Python.Codec.{Codec}
use async_pulse.Python.Text.{replace}

pub record SuccessResponse (T : Type 0) : Type 0 where
  pub success : Bool
  pub message : String
  pub data_ : T
  pub timestamp : String

-- An entry that `validation_exception_handler` makes.
pub record FieldError : Type 0 where
  pub field_ : String
  pub message : String
  pub rule : String

pub record ErrorResponse : Type 0 where
  pub success : Bool
  pub message : String
  pub error_code : String
  pub errors : Option (List FieldError)
  pub timestamp : String

-- `errors if errors and len(errors) > 0 else None`
unfoldable pub errors_to_include : Option (List FieldError) → Option (List FieldError)
errors_to_include none = none
errors_to_include (some []) = none
errors_to_include (some (e ∷ es)) = some (e ∷ es)

module _ (codec : Codec) where
  -- The default of both `timestamp` fields, at a reading of the clock.
  unfoldable pub timestamp : DateTime → String
  timestamp now = replace (codec.isoformat now) "+00:00" "Z"

  unfoldable pub success_response : {T : Type 0} → DateTime → T → String → SuccessResponse T
  unfolding timestamp
  success_response now value message = record {
    success = true;
    message = message;
    data_ = value;
    timestamp = timestamp now;
  }

  unfoldable pub error_response :
      DateTime → String → String → Option (List FieldError) → ErrorResponse
  unfolding timestamp errors_to_include
  error_response now message error_code errors = record {
    success = false;
    message = message;
    error_code = error_code;
    errors = errors_to_include errors;
    timestamp = timestamp now;
  }
