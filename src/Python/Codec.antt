-- ===== src/Python/Codec.antt =====
-- `json` and `datetime.isoformat` of the standard library, as parameters.
use async_pulse.Prelude.{String, ◌≡◌, ◌≢◌, Option, some}
use async_pulse.Python.DateTime.{DateTime}
use async_pulse.Python.Obj.{Obj}

-- `loads` and `fromisoformat` return `none` where Python raises a `ValueError`.
pub record Codec : Type 0 where
  pub dumps : Obj → String
  pub loads : String → Option Obj
  pub isoformat : DateTime → String
  pub fromisoformat : String → Option DateTime

-- A date that is read back from its text, which is not empty.
pub record ReadsBack (c : Codec) (d : DateTime) : Type 0 where
  pub fromisoformat-isoformat : c.fromisoformat (c.isoformat d) ≡ some d
  pub isoformat-ne-empty : c.isoformat d ≢ ""
