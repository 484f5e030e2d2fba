-- ===== src/Db/Act/Tx.antt =====
-- What an action does to the database, by how it ended: a rule for each way to build an action.
-- `P`, `Q` and `E` relate the committed tables and those of the transaction.
pub mod Flush
pub mod Weaken
use async_pulse.Prelude.{◌≡◌, refl, Bool, true, false, Option, none, some, if◌then◌else◌}
use async_pulse.Python.Result.{Error, Result, ok, err}
use async_pulse.Python.Action.{continue, replace_error, value_or}
use async_pulse.Db.Tables.{Tables, satisfies_constraints}
use async_pulse.Db.World.{World}
use async_pulse.Db.Act.{
  Act, pure, raise, lift, or_raise, require, ◌>>=◌, suppress, suppress_or, reraise, now, draw,
  uuid4, write, flushed, flush, commit, query,
}

abbrev pub Rel : Type 1
Rel = Tables → Tables → Type 0

abbrev pub Post : {C A : Type 0} → (A → Rel) → Rel → Result A × World C → Type 0
Post Q E (ok a, w) = Q a w.committed w.tx
Post Q E (err e, w) = E w.committed w.tx

-- From tables related by `P` the action returns with `Q`, or raises with `E`.
pub record Tx {C A : Type 0} (P : Rel) (m : Act C A) (Q : A → Rel) (E : Rel) : Type 0 where
  pub at : (w : World C) → P w.committed w.tx → Post Q E (m w)

module _ {C A : Type 0} {P : Rel} {Q : A → Rel} {E : Rel} where
  pub Tx-pure : (a : A) → ((c t : Tables) → P c t → Q a c t) → Tx {C = C} P (pure a) Q E
  unfolding pure
  Tx-pure a h = record { at = λ w. h w.committed w.tx }

  pub Tx-raise : (e : Error) → ((c t : Tables) → P c t → E c t) → Tx {C = C} P (raise e) Q E
  unfolding raise
  Tx-raise e h = record { at = λ w. h w.committed w.tx }

  pub Tx-lift :
      (r : Result A)
      → ((a : A) (c t : Tables) → r ≡ ok a → P c t → Q a c t)
      → ((c t : Tables) → P c t → E c t)
      → Tx {C = C} P (lift r) Q E
  unfolding lift
  Tx-lift (ok a) h k = record { at = λ w p. h a w.committed w.tx refl p }
  Tx-lift (err e) h k = record { at = λ w. k w.committed w.tx }

  pub Tx-or_raise :
      (e : Error) (o : Option A)
      → ((a : A) (c t : Tables) → o ≡ some a → P c t → Q a c t)
      → ((c t : Tables) → P c t → E c t)
      → Tx {C = C} P (or_raise e o) Q E
  unfolding or_raise
  Tx-or_raise e none h k = record { at = λ w. k w.committed w.tx }
  Tx-or_raise e (some a) h k = record { at = λ w p. h a w.committed w.tx refl p }

  pub Tx-if :
      (b : Bool) (m n : Act C A)
      → (b ≡ true → Tx P m Q E)
      → (b ≡ false → Tx P n Q E)
      → Tx P (if b then m else n) Q E
  Tx-if true m n hm hn = hm refl
  Tx-if false m n hm hn = hn refl

module _ {C A : Type 0} (Q : A → Rel) (E : Rel) where
  replace_error-Post :
      (e : Error) (r : Result A) (w : World C) → Post Q E (r, w) → Post Q E (replace_error e r, w)
  replace_error-Post e (ok a) w h = h
  replace_error-Post e (err exc) w h = h

module _ {C A : Type 0} {P : Rel} {Q : A → Rel} {E : Rel} where
  pub Tx-reraise : (e : Error) (m : Act C A) → Tx P m Q E → Tx P (reraise e m) Q E
  unfolding reraise
  Tx-reraise e m hm = record { at = λ w p. replace_error-Post Q E e (m w).0 (m w).1 (hm.at w p) }

module _ {C A B : Type 0} {Q : A → Rel} {R : B → Rel} {E : Rel} where
  continue-Post :
      (f : A → Act C B)
      → ((a : A) → Tx (Q a) (f a) R E)
      → (r : Result A) (w : World C) → Post Q E (r, w)
      → Post R E (continue r w f)
  continue-Post f hf (ok a) w h = (hf a).at w h
  continue-Post f hf (err e) w h = h

  pub Tx-bind :
      {P : Rel} {m : Act C A} {f : A → Act C B}
      → Tx P m Q E
      → ((a : A) → Tx (Q a) (f a) R E)
      → Tx P (m >>= f) R E
  unfolding ◌>>=◌
  Tx-bind {P} {m} {f} hm hf = record { at = λ w p. continue-Post f hf (m w).0 (m w).1 (hm.at w p) }

flushed-Post :
    {C : Type 0} (P E : Rel) (b : Bool) (w : World C)
    → P w.committed w.tx
    → ((c t : Tables) → P c t → E c c)
    → Post (λ _. P) E (flushed b w)
flushed-Post P E true w p k = p
flushed-Post P E false w p k = k w.committed w.tx p

value_or-Post :
    {C A : Type 0} (P E : Rel) (a : A) (r : Result A) (w : World C)
    → Post (λ _. P) P (r, w)
    → Post (λ _. P) E (ok (value_or a r), w)
value_or-Post P E a (ok v) w h = h
value_or-Post P E a (err e) w h = h

-- The basic actions, each with what it keeps.
module _ {C : Type 0} {P E : Rel} where
  pub Tx-now : Tx {C = C} P now (λ _. P) E
  unfolding now
  Tx-now = record { at = λ w p. p }

  pub Tx-draw : Tx {C = C} P draw (λ _. P) E
  unfolding draw
  Tx-draw = record { at = λ w p. p }

  pub Tx-uuid4 : Tx {C = C} P uuid4 (λ _. P) E
  unfolding uuid4
  Tx-uuid4 = record { at = λ w p. p }

  pub Tx-query :
      {A : Type 0} (f : Tables → A) → Tx {C = C} P (query f) (λ a c t. P c t × (a ≡ f t)) E
  unfolding query
  Tx-query f = record { at = λ w p. (p, refl) }

  pub Tx-require :
      (b : Bool) (e : Error)
      → ((c t : Tables) → P c t → E c t)
      → Tx {C = C} P (require b e) (λ _ c t. P c t × (b ≡ true)) E
  unfolding require
  Tx-require true e k = record { at = λ w p. (p, refl) }
  Tx-require false e k = record { at = λ w. k w.committed w.tx }

  pub Tx-write :
      {Q : Rel} (f : Tables → Tables)
      → ((c t : Tables) → P c t → Q c (f t))
      → Tx {C = C} P (write f) (λ _. Q) E
  unfolding write
  Tx-write f h = record { at = λ w. h w.committed w.tx }

  pub Tx-commit : {Q : Rel} → ((c t : Tables) → P c t → Q t t) → Tx {C = C} P commit (λ _. Q) E
  unfolding commit
  Tx-commit h = record { at = λ w. h w.committed w.tx }

  -- A refused flush rolls the transaction back.
  pub Tx-flush : ((c t : Tables) → P c t → E c c) → Tx {C = C} P flush (λ _. P) E
  unfolding flush
  Tx-flush k = record { at = λ w p. flushed-Post P E (satisfies_constraints w.tx) w p k }

  pub Tx-suppress : (m : Act C (Unit {0})) → Tx P m (λ _. P) P → Tx P (suppress m) (λ _. P) E
  unfolding suppress
  Tx-suppress m hm = record { at = λ w p. value_or-Post P E tt (m w).0 (m w).1 (hm.at w p) }

module _ {C A : Type 0} {P E : Rel} where
  pub Tx-suppress_or :
      (default : A) (m : Act C A) → Tx P m (λ _. P) P → Tx P (suppress_or default m) (λ _. P) E
  unfolding suppress_or
  Tx-suppress_or default m hm = record {
    at = λ w p. value_or-Post P E default (m w).0 (m w).1 (hm.at w p);
  }
