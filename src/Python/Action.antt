-- ===== src/Python/Action.antt =====
-- Methods that mutate a state and may raise. What was written before a raise stays written, so the
-- state comes back beside the error too.
use async_pulse.Prelude.{◌≡◌, refl, Bool, Option, if◌then◌else◌}
use async_pulse.Python.Result.{Error, Result, ok, err, or_raise as option_or_raise}

abbrev pub Action : Type 0 → Type 0 → Type 0
Action S A = S → Result A × S

module _ {S A : Type 0} where
  unfoldable pub pure : A → Action S A
  pure a w = (ok a, w)

  unfoldable pub raise : Error → Action S A
  raise e w = (err e, w)

  unfoldable pub lift : Result A → Action S A
  lift r w = (r, w)

  -- `x = o`, or `raise e` where it is `None`.
  unfoldable pub or_raise : Error → Option A → Action S A
  or_raise e o w = (option_or_raise e o, w)

-- `if not b: raise e`
unfoldable pub require : {S : Type 0} → Bool → Error → Action S (Unit {0})
require b e w = (if b then ok tt else err e, w)

infixl 5 ◌>>=◌ ◌>>◌
abbrev pub continue : {S A B : Type 0} → Result A → S → (A → Action S B) → Result B × S
continue (ok a) w f = f a w
continue (err e) w f = (err e, w)

-- Opening this opens the actions above too.
unfoldable pub ◌>>=◌ : {S A B : Type 0} → Action S A → (A → Action S B) → Action S B
unfolding pure raise lift or_raise require
◌>>=◌ m f w = let (r, w') = m w in continue r w' f

abbrev pub ◌>>◌ : {S B : Type 0} → Action S (Unit {0}) → Action S B → Action S B
m >> k = m >>= λ _. k

-- `with suppress(Exception): m`
unfoldable pub suppress : {S : Type 0} → Action S (Unit {0}) → Action S (Unit {0})
suppress m w = let (r, w') = m w in (ok tt, w')

abbrev pub value_or : {A : Type 0} → A → Result A → A
value_or default (ok a) = a
value_or default (err e) = default

-- `x = default; with suppress(Exception): x = m`
unfoldable pub suppress_or : {S A : Type 0} → A → Action S A → Action S A
suppress_or default m w = let (r, w') = m w in (ok (value_or default r), w')

abbrev pub replace_error : {A : Type 0} → Error → Result A → Result A
replace_error e (ok a) = ok a
replace_error e (err exc) = err e

-- `try: m` with `except Exception as exc: raise e from exc`
unfoldable pub reraise : {S A : Type 0} → Error → Action S A → Action S A
reraise e m w = let (r, w') = m w in (replace_error e r, w')

-- Inversion of a call that returned: its first step returned, and so did the rest.
pub >>=-returns :
    {S A B : Type 0} (m : Action S A) (f : A → Action S B) (w : S) {b : B} {w₂ : S}
    → (m >>= f) w ≡ (ok b, w₂)
    → (a : A) × (w₁ : S) × (m w ≡ (ok a, w₁)) × (f a w₁ ≡ (ok b, w₂))
unfolding ◌>>=◌
>>=-returns {S} {A} {B} m f w {b} {w₂} h = go (m w).0 (m w).1 refl h
  where
    go :
        (r : Result A) (w' : S)
        → m w ≡ (r, w')
        → continue r w' f ≡ (ok b, w₂)
        → (a : A) × (w₁ : S) × (m w ≡ (ok a, w₁)) × (f a w₁ ≡ (ok b, w₂))
    go (ok a) w' e k = (a, w', e, k)
    go (err e) w' p k = cc
