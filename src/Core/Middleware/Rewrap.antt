-- ===== src/Core/Middleware/Rewrap.antt =====
-- What the middleware of src/core/middleware.py leaves of a response.
use async_pulse.Prelude.{◌⧺◌, ◌≡◌, ◌≢◌, none, arith}
use async_pulse.Python.DateTime.{DateTime}
use async_pulse.Python.Codec.{Codec}
use async_pulse.Core.Handlers.{Request, Response, json_error}
use async_pulse.Core.Middleware.{rewrap}

module _ {B : Type 0} (codec : Codec) (now : DateTime) (request : Request) where
  -- A response that is neither is left alone.
  pub rewrap-other :
      (r : Response B) → r.status_code ≢ 404 → r.status_code ≢ 405 → rewrap codec now request r ≡ r
  unfolding rewrap
  rewrap-other r h₄ h₅ = ground arith

  -- A 404 gets the path, whatever it said.
  pub rewrap-not_found :
      (r : Response B)
      → r.status_code ≡ 404
      → rewrap codec now request r
        ≡ json_error codec now 404 ("Route not found: " ⧺ request.path) "NOT_FOUND" none
  unfolding rewrap
  rewrap-not_found r h = ground arith
