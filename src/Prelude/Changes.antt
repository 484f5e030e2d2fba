-- ===== src/Prelude/Changes.antt =====
-- Tests and orders on lists whose elements are changed.
use mathlib.Core.Path.{◌≡◌, refl, ap, ◌∙◌}
use mathlib.Core.Bool.{Bool, true, false}
use mathlib.Core.List.{List, [], ◌∷◌, map}
use native.Mathlib.Omega.{arith}
use async_pulse.Prelude.Tests.{if◌then◌else◌}
use async_pulse.Prelude.Lists.{select, update_where, insert_by, sort_by}

-- A change that neither the test nor the order looks at.
module _ {ℓ} {A : Type ℓ} (f : A → A) where
  pub select-map :
      (p : A → Bool)
      → ((x : A) → p (f x) ≡ p x)
      → (xs : List A) → select p (map f xs) ≡ map f (select p xs)
  select-map p same [] = refl
  select-map p same (x ∷ xs) = rw (same x) (here (p x) (select-map p same xs))
    where
      here :
          (b : Bool)
          → select p (map f xs) ≡ map f (select p xs)
          → (if b then f x ∷ select p (map f xs) else select p (map f xs))
            ≡ map f (if b then x ∷ select p xs else select p xs)
      here true e = ap (◌∷◌ (f x)) e
      here false e = e

  module _ (before : A → A → Bool) (same : (x y : A) → before (f x) (f y) ≡ before x y) where
    insert_by-map :
        (a : A) (xs : List A) → insert_by before (f a) (map f xs) ≡ map f (insert_by before a xs)
    unfolding insert_by
    insert_by-map a [] = refl
    insert_by-map a (x ∷ xs) = rw (same a x) (here (before a x) (insert_by-map a xs))
      where
        here :
            (b : Bool)
            → insert_by before (f a) (map f xs) ≡ map f (insert_by before a xs)
            → (if b then f a ∷ f x ∷ map f xs else f x ∷ insert_by before (f a) (map f xs))
              ≡ map f (if b then a ∷ x ∷ xs else x ∷ insert_by before a xs)
        here true e = refl
        here false e = ap (◌∷◌ (f x)) e

    pub sort_by-map : (xs : List A) → sort_by before (map f xs) ≡ map f (sort_by before xs)
    unfolding sort_by
    sort_by-map [] = refl
    sort_by-map (x ∷ xs) =
        ap (insert_by before (f x)) (sort_by-map xs) ∙ insert_by-map x (sort_by before xs)

-- A change of some rows that the test does not look at.
module _ {ℓ} {A : Type ℓ} (p q : A → Bool) (f : A → A) (same : (x : A) → p (f x) ≡ p x) where
  pub select-update_where :
      (xs : List A) → select p (update_where q f xs) ≡ update_where q f (select p xs)
  select-update_where [] = refl
  select-update_where (x ∷ xs) = ground (arith, same x, select-update_where xs)

-- A change of the rows that pass a test, as a change of all of them.
pub update_where-map {ℓ} :
    {A : Type ℓ} (p : A → Bool) (f g : A → A)
    → ((x : A) → (if p x then f x else x) ≡ g x)
    → (xs : List A) → update_where p f xs ≡ map g xs
update_where-map p f g h [] = refl
update_where-map p f g h (x ∷ xs) = rw (h x, update_where-map p f g h xs) refl
