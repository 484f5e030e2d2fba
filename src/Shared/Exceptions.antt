-- ===== src/Shared/Exceptions.antt =====
-- src/shared/exceptions.py, src/modules/users/exceptions.py and src/modules/auth/exceptions.py:
-- a function for each class, which builds the object that its `__init__` builds.
use async_pulse.Prelude.{String, ◌⧺◌, str_eq, some, if◌then◌else◌}
use async_pulse.Python.Result.{AppError}

-- The five bases. The first argument is the name of the class that is raised.
unfoldable pub not_found_error : String → String → String → AppError
not_found_error cls resource resource_id = record {
  class_name = cls;
  error_code = some "NOT_FOUND";
  message =
      if str_eq resource_id ""
      then resource ⧺ " not found"
      else resource ⧺ " not found" ⧺ ": " ⧺ resource_id;
  status_code = 404;
}

unfoldable pub authentication_error : String → String → AppError
authentication_error cls message = record {
  class_name = cls;
  error_code = some "UNAUTHORIZED";
  message = message;
  status_code = 401;
}

unfoldable pub authorization_error : String → String → AppError
authorization_error cls message = record {
  class_name = cls;
  error_code = some "FORBIDDEN";
  message = message;
  status_code = 403;
}

unfoldable pub conflict_error : String → String → AppError
conflict_error cls message = record {
  class_name = cls;
  error_code = some "CONFLICT";
  message = message;
  status_code = 409;
}

unfoldable pub validation_error : String → String → AppError
validation_error cls message = record {
  class_name = cls;
  error_code = some "VALIDATION_FAILED";
  message = message;
  status_code = 422;
}
