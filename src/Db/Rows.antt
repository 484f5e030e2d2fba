-- ===== src/Db/Rows.antt =====
-- How a result of `session.execute(select(...))` is read: `scalars().all()` is the list itself.
use async_pulse.Prelude.{◌≡◌, Option, none, some, List, [], ◌∷◌}
use async_pulse.Python.Result.{Result, ok, err, no_result_found, multiple_results_found}

module _ {A : Type 0} where
  abbrev pub scalar_one_or_none : List A → Result (Option A)
  scalar_one_or_none [] = ok none
  scalar_one_or_none (x ∷ []) = ok (some x)
  scalar_one_or_none (x ∷ y ∷ xs) = err multiple_results_found

  abbrev pub scalar_one : List A → Result A
  scalar_one [] = err no_result_found
  scalar_one (x ∷ []) = ok x
  scalar_one (x ∷ y ∷ xs) = err multiple_results_found

  pub scalar_one_or_none-some :
      (l : List A) (x : A) → scalar_one_or_none l ≡ ok (some x) → l ≡ x ∷ []
  scalar_one_or_none-some [] x h = cc
  scalar_one_or_none-some (y ∷ []) x h = cc
  scalar_one_or_none-some (y ∷ z ∷ l) x h = cc
