-- ===== src/Python/Obj.antt =====
-- Flat JSON objects: the only values that the program caches are dicts of strings and nulls.
use async_pulse.Prelude.{
  String, str_eq, Bool, true, false, Option, none, some, List, [], ◌∷◌, if◌then◌else◌,
}
use async_pulse.Python.Result.{Result, ok, err, key_error}

abbrev pub Obj : Type 0
Obj = List (String × Option String)

-- `data.get(key)`: a missing key and a null both read as `None`.
abbrev pub get : String → Obj → Option String
get k [] = none
get k ((j, v) ∷ o) = if str_eq j k then v else get k o

-- `data[key]`
abbrev pub item : String → Obj → Result (Option String)
item k [] = err key_error
item k ((j, v) ∷ o) = if str_eq j k then ok v else item k o

-- `str(value)`
abbrev pub to_str : Option String → String
to_str none = "None"
to_str (some s) = s

-- The truth value of a `str | None`.
abbrev pub is_truthy : Option String → Bool
is_truthy none = false
is_truthy (some s) = if str_eq s "" then false else true

-- The truth value of a `dict | None`.
abbrev pub non_empty : Option Obj → Bool
non_empty none = false
non_empty (some []) = false
non_empty (some (e ∷ o)) = true

-- `value == s` of a `str | None` and a `str`.
abbrev pub equals : Option String → String → Bool
equals none s = false
equals (some v) s = str_eq v s
