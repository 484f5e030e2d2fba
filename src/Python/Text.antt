-- ===== src/Python/Text.antt =====
-- Methods of `str` that the exception handlers use. `upper` is Python's on ASCII letters, and leaves
-- every other character as it is.
use Prim.Native.Nat.{zero, suc, ◌+◌, ◌%◌}
use Prim.Native.Char.{Char, code}
use Prim.Native.String.{String, char_at, count, slice, len, ◌++◌ as ◌⧺◌}
use text.Mathlib.Text.{find?}
use async_pulse.Prelude.{
  ℕ, ◌-◌, ◌/◌, Bool, ◌&&◌, ◌≡◌, refl, none, some, List, [], ◌∷◌, leb, ltb, if◌then◌else◌, str_eq,
}

abbrev between : String → String → Char → Bool
between a z c = leb (code (char_at a 0)) (code c) && leb (code c) (code (char_at z 0))

abbrev is_upper : Char → Bool
is_upper = between "A" "Z"

abbrev is_lower : Char → Bool
is_lower = between "a" "z"

abbrev upper_char : Char → Char
upper_char c =
    if is_lower c then char_at "ABCDEFGHIJKLMNOPQRSTUVWXYZ" (code c - code (char_at "a" 0)) else c

-- `s.upper()`
unfoldable pub upper : String → String
upper String.[] = ""
upper (String.◌∷◌ c s) = String.◌∷◌ (upper_char c) (upper s)

-- `re.sub(r"([A-Z])", r"_\1", s)`
unfoldable pub mark_capitals : String → String
mark_capitals String.[] = ""
mark_capitals (String.◌∷◌ c s) =
    let rest = String.◌∷◌ c (mark_capitals s) in if is_upper c then "_" ⧺ rest else rest

-- `s.lstrip(c)` for a single character
unfoldable pub lstrip : String → String → String
lstrip c String.[] = ""
lstrip c (String.◌∷◌ d s) =
    let rest = lstrip c s in if str_eq (String.◌∷◌ d "") c then rest else String.◌∷◌ d s

-- The occurrences of a text that is not empty, from the left, at most as many as the fuel.
abbrev replace_at_most : ℕ → String → String → String → String
replace_at_most zero s old new = s
replace_at_most (suc fuel) s old new = elim (find? s old) [
  | none ↦ s
  | some i ↦ slice s 0 i ⧺ new ⧺ replace_at_most fuel (slice s (i + len old) (len s)) old new
]

-- `s.replace(old, new)`: a text has no more occurrences than characters.
unfoldable pub replace : String → String → String → String
replace s old new = replace_at_most (count s) s old new

-- `sep.join(parts)`
unfoldable pub join : String → List String → String
join sep [] = ""
join sep (s ∷ []) = s
join sep (s ∷ t ∷ ts) = s ⧺ sep ⧺ join sep (t ∷ ts)

-- `str(n)`: a number has no more digits than its size, plus one.
abbrev digits : ℕ → ℕ → String
digits zero n = ""
digits (suc fuel) n =
    let rest = digits fuel (n / 10) in
    let last = String.◌∷◌ (char_at "0123456789" (n % 10)) "" in
    if ltb n 10 then last else rest ⧺ last

unfoldable pub str_nat : ℕ → String
str_nat n = digits (suc n) n

printed : str_nat 1024 ≡ "1024"
unfolding str_nat
printed = refl

upper-ascii : upper "Not_Found 404" ≡ "NOT_FOUND 404"
unfolding upper
upper-ascii = refl

class_name_marked :
    upper (lstrip "_" (mark_capitals (replace "UserNotFoundError" "Error" ""))) ≡ "USER_NOT_FOUND"
unfolding upper lstrip mark_capitals replace
class_name_marked = refl

zulu : replace "2026-01-01T00:00:00+00:00" "+00:00" "Z" ≡ "2026-01-01T00:00:00Z"
unfolding replace
zulu = refl

dotted : join "." ("user" ∷ "email" ∷ []) ≡ "user.email"
unfolding join
dotted = refl
