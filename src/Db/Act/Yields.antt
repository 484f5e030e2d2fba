-- ===== src/Db/Act/Yields.antt =====
-- What an action that returns leaves behind, the cache included: a rule for each way to build an action. Nothing is said of an action that raises.
use async_pulse.Prelude.{suc, Bool, true, false, Option, none, some, if◌then◌else◌}
use async_pulse.Python.Result.{Error, Result, ok, err}
use async_pulse.Python.Action.{continue, replace_error}
use async_pulse.Db.Tables.{Tables, satisfies_constraints}
use async_pulse.Db.World.{World}
use async_pulse.Db.Act.{
  Act, pure, raise, lift, or_raise, require, ◌>>=◌, reraise, now, write, flushed, flush, commit,
  query,
}

abbrev pub Reached : {C A : Type 0} → (A → World C → Type 0) → Result A × World C → Type 0
Reached Q (ok a, w) = Q a w
Reached Q (err e, w) = Unit

pub record Yields {C A : Type 0} (I : World C → Type 0) (m : Act C A) (Q : A → World C → Type 0)
    : Type 0 where
  pub at : (w : World C) → I w → Reached Q (m w)

module _ {C A B : Type 0} {Q : A → World C → Type 0} {R : B → World C → Type 0} where
  continue-Reached :
      (f : A → Act C B)
      → ((a : A) → Yields (Q a) (f a) R)
      → (r : Result A) (w : World C) → Reached Q (r, w)
      → Reached R (continue r w f)
  continue-Reached f hf (ok a) w h = (hf a).at w h
  continue-Reached f hf (err e) w h = tt

module _ {C A B : Type 0} {I : World C → Type 0} {Q : A → World C → Type 0}
    {R : B → World C → Type 0} where
  pub Yields-bind :
      {m : Act C A} {f : A → Act C B}
      → Yields I m Q
      → ((a : A) → Yields (Q a) (f a) R)
      → Yields I (m >>= f) R
  unfolding ◌>>=◌
  Yields-bind {m} {f} hm hf = record {
    at = λ w h. continue-Reached f hf (m w).0 (m w).1 (hm.at w h);
  }

-- The actions that change nothing keep every predicate.
module _ {C A : Type 0} {I : World C → Type 0} where
  pub Yields-pure : (a : A) → Yields I (pure a) (λ _. I)
  unfolding pure
  Yields-pure a = record { at = λ w h. h }

  pub Yields-raise : (e : Error) → Yields {A = A} I (raise e) (λ _. I)
  unfolding raise
  Yields-raise e = record { at = λ w h. tt }

  pub Yields-lift : (r : Result A) → Yields I (lift r) (λ _. I)
  unfolding lift
  Yields-lift (ok a) = record { at = λ w h. h }
  Yields-lift (err e) = record { at = λ w h. tt }

  pub Yields-or_raise : (e : Error) (o : Option A) → Yields I (or_raise e o) (λ _. I)
  unfolding or_raise
  Yields-or_raise e none = record { at = λ w h. tt }
  Yields-or_raise e (some a) = record { at = λ w h. h }

  pub Yields-query : (f : Tables → A) → Yields I (query f) (λ _. I)
  unfolding query
  Yields-query f = record { at = λ w h. h }

  pub Yields-if :
      (b : Bool) {m n : Act C A}
      → Yields I m (λ _. I)
      → Yields I n (λ _. I)
      → Yields I (if b then m else n) (λ _. I)
  Yields-if true hm hn = hm
  Yields-if false hm hn = hn

module _ {C A : Type 0} (Q : A → World C → Type 0) where
  replaced :
      (e : Error) (r : Result A) (w : World C) → Reached Q (r, w) → Reached Q (replace_error e r, w)
  replaced e (ok a) w h = h
  replaced e (err exc) w h = tt

module _ {C A : Type 0} {I : World C → Type 0} {Q : A → World C → Type 0} where
  pub Yields-reraise : (e : Error) {m : Act C A} → Yields I m Q → Yields I (reraise e m) Q
  unfolding reraise
  Yields-reraise e {m} hm = record { at = λ w h. replaced Q e (m w).0 (m w).1 (hm.at w h) }

module _ {C : Type 0} (I : World C → Type 0) where
  flushed-Reached : (b : Bool) (w : World C) → I w → Reached (λ _. I) (flushed b w)
  flushed-Reached true w h = h
  flushed-Reached false w h = tt

module _ {C : Type 0} {I : World C → Type 0} where
  pub Yields-require : (b : Bool) (e : Error) → Yields I (require b e) (λ _. I)
  unfolding require
  Yields-require true e = record { at = λ w h. h }
  Yields-require false e = record { at = λ w h. tt }

  pub Yields-now :
      ((w : World C) → I w → I (record w { reads = suc w.reads })) → Yields I now (λ _. I)
  unfolding now
  Yields-now keeps = record { at = keeps }

  pub Yields-write :
      (f : Tables → Tables)
      → ((w : World C) → I w → I (record w { tx = f w.tx }))
      → Yields I (write f) (λ _. I)
  unfolding write
  Yields-write f keeps = record { at = keeps }

  pub Yields-flush : Yields I flush (λ _. I)
  unfolding flush
  Yields-flush = record { at = λ w. flushed-Reached I (satisfies_constraints w.tx) w }

  pub Yields-commit :
      ((w : World C) → I w → I (record w { committed = w.tx })) → Yields I commit (λ _. I)
  unfolding commit
  Yields-commit keeps = record { at = keeps }
