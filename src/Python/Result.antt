-- ===== src/Python/Result.antt =====
-- Exceptions as values. `AppError` is the record of shared/exceptions.py; the other constructors
-- are exceptions of Python and of the libraries that the code calls.
use async_pulse.Prelude.{ℕ, String, Option, Bool, true, false}

-- shared/exceptions.py: the class of the object, and the attributes that the handler reads.
pub record AppError : Type 0 where
  pub class_name : String
  pub error_code : Option String
  pub message : String
  pub status_code : ℕ

pub data Error : Type 0 where
  app : AppError → Error
  key_error value_error type_error assertion_error : Error
  dbapi_error no_result_found multiple_results_found : Error
  pydantic_error : Error
  redis_error os_error jwt_error recursion_error : Error

pub data Result (A : Type 0) : Type 0 where
  ok : A → Result A
  err : Error → Result A

infixl 5 ◌>>=◌
abbrev pub ◌>>=◌ : {A B : Type 0} → Result A → (A → Result B) → Result B
ok a >>= f = f a
err e >>= f = err e

-- A library call that raises `e` where it has no value.
abbrev pub or_raise : {A : Type 0} → Error → Option A → Result A
or_raise e Option.none = err e
or_raise e (Option.some a) = ok a

abbrev pub is_ok : {A : Type 0} → Result A → Bool
is_ok (ok a) = true
is_ok (err e) = false
