-- ===== src/Prelude/Lists.antt =====
-- Lists measured by native numbers, and searched by Boolean tests.
use Prim.Native.Nat.{ℕ, zero, suc}
use mathlib.Core.Path.{◌≡◌, refl, ap, ◌∙◌, subst}
use mathlib.Core.Bool.{Bool, true, false, ◌&&◌, ◌||◌}
use mathlib.Core.List.{List, [], ◌∷◌, ◌++◌, map}
use async_pulse.Prelude.Tests.{if◌then◌else◌}

module _ {ℓ} {A : Type ℓ} where
  abbrev pub length : List A → ℕ
  length [] = 0
  length (x ∷ xs) = suc (length xs)

  abbrev pub take : ℕ → List A → List A
  take zero xs = []
  take (suc n) [] = []
  take (suc n) (x ∷ xs) = x ∷ take n xs

  abbrev pub drop : ℕ → List A → List A
  drop zero xs = xs
  drop (suc n) [] = []
  drop (suc n) (x ∷ xs) = drop n xs

  -- The rows that a test keeps, in their order.
  abbrev pub select : (A → Bool) → List A → List A
  select p [] = []
  select p (x ∷ xs) = let rest = select p xs in if p x then x ∷ rest else rest

  abbrev pub any : (A → Bool) → List A → Bool
  any p [] = false
  any p (x ∷ xs) = p x || any p xs

  abbrev pub all : (A → Bool) → List A → Bool
  all p [] = true
  all p (x ∷ xs) = p x && all p xs

  -- Every row that passes a test, changed.
  abbrev pub update_where : (A → Bool) → (A → A) → List A → List A
  update_where p f [] = []
  update_where p f (x ∷ xs) = (if p x then f x else x) ∷ update_where p f xs

  -- `ORDER BY`: `before a b` says that `a` may stand in front of `b`. Equal keys keep their order.
  unfoldable pub insert_by : (A → A → Bool) → A → List A → List A
  insert_by before a [] = a ∷ []
  insert_by before a (x ∷ xs) =
      let rest = insert_by before a xs in if before a x then a ∷ x ∷ xs else x ∷ rest

  unfoldable pub sort_by : (A → A → Bool) → List A → List A
  sort_by before [] = []
  sort_by before (x ∷ xs) = insert_by before x (sort_by before xs)

-- Every element has the property.
abbrev pub All {ℓ κ} : {A : Type ℓ} → (A → Type κ) → List A → Type κ
All P [] = Unit
All P (x ∷ xs) = P x × All P xs

module _ {ℓ κ} {A : Type ℓ} (P : A → Type κ) (p : A → Bool) (f : A → A) where
  pub All-update_where :
      ((x : A) → p x ≡ true → P (f x))
      → ((x : A) → p x ≡ false → P x)
      → (xs : List A) → All P (update_where p f xs)
  All-update_where changed kept [] = tt
  All-update_where changed kept (x ∷ xs) = (here (p x) refl, All-update_where changed kept xs)
    where
      here : (b : Bool) → p x ≡ b → P (if b then f x else x)
      here true e = changed x e
      here false e = kept x e

module _ {ℓ κ} {A : Type ℓ} (P : A → Type κ) (p : A → Bool) (f : A → A) where
  -- What a change keeps, every element of the changed list has.
  pub All-updated :
      ((x : A) → P x → P (f x)) → (xs : List A) → All P xs → All P (update_where p f xs)
  All-updated keeps [] h = tt
  All-updated keeps (x ∷ xs) (h, hs) = (here (p x), All-updated keeps xs hs)
    where
      here : (b : Bool) → P (if b then f x else x)
      here true = keeps x h
      here false = h

module _ {ℓ} {A : Type ℓ} (p : A → Bool) where
  -- What a selection shows first passes the test.
  pub select-head : (xs : List A) (y : A) (ys : List A) → select p xs ≡ y ∷ ys → p y ≡ true
  select-head [] y ys h = cc
  select-head (x ∷ xs) y ys h = here (p x) refl h (select-head xs y ys)
    where
      here :
          (b : Bool)
          → p x ≡ b
          → (if b then x ∷ select p xs else select p xs) ≡ y ∷ ys
          → (select p xs ≡ y ∷ ys → p y ≡ true)
          → p y ≡ true
      here true e h ih = cc
      here false e h ih = ih h

module _ {ℓ κ} {A : Type ℓ} (P : A → Type κ) (p : A → Bool) where
  -- What every element has, the ones selected have.
  pub All-select : (xs : List A) → All P xs → All P (select p xs)
  All-select [] h = tt
  All-select (x ∷ xs) (h, hs) = here (p x) (All-select xs hs)
    where
      here : (b : Bool) → All P (select p xs) → All P (if b then x ∷ select p xs else select p xs)
      here true rest = (h, rest)
      here false rest = rest

module _ {ℓ} {A : Type ℓ} (before : A → A → Bool) where
  length-insert_by : (a : A) (xs : List A) → length (insert_by before a xs) ≡ suc (length xs)
  unfolding insert_by
  length-insert_by a [] = refl
  length-insert_by a (x ∷ xs) = here (before a x) (length-insert_by a xs)
    where
      here :
          (b : Bool)
          → length (insert_by before a xs) ≡ suc (length xs)
          → length (if b then a ∷ x ∷ xs else x ∷ insert_by before a xs) ≡ suc (suc (length xs))
      here true h = refl
      here false h = ap suc h

  -- Sorting keeps the number of rows.
  pub length-sort_by : (xs : List A) → length (sort_by before xs) ≡ length xs
  unfolding sort_by
  length-sort_by [] = refl
  length-sort_by (x ∷ xs) = length-insert_by x (sort_by before xs) ∙ ap suc (length-sort_by xs)

pub length-map {ℓ κ} :
    {A : Type ℓ} {B : Type κ} (f : A → B) (xs : List A) → length (map f xs) ≡ length xs
length-map f [] = refl
length-map f (x ∷ xs) = ap suc (length-map f xs)

module _ {ℓ κ} {A : Type ℓ} (P : A → Type κ) where
  pub All-take : (n : ℕ) (xs : List A) → All P xs → All P (take n xs)
  All-take zero xs h = tt
  All-take (suc n) [] h = tt
  All-take (suc n) (x ∷ xs) (h, hs) = (h, All-take n xs hs)

  module _ (before : A → A → Bool) where
    pub All-insert_by : (a : A) (xs : List A) → P a → All P xs → All P (insert_by before a xs)
    unfolding insert_by
    All-insert_by a [] h hs = (h, tt)
    All-insert_by a (x ∷ xs) h (k, ks) = here (before a x) (All-insert_by a xs h ks)
      where
        here :
            (b : Bool)
            → All P (insert_by before a xs)
            → All P (if b then a ∷ x ∷ xs else x ∷ insert_by before a xs)
        here true _ = (h, (k, ks))
        here false rest = (k, rest)

    pub All-sort_by : (xs : List A) → All P xs → All P (sort_by before xs)
    unfolding sort_by
    All-sort_by [] h = tt
    All-sort_by (x ∷ xs) (h, hs) = All-insert_by x (sort_by before xs) h (All-sort_by xs hs)

module _ {ℓ} {A : Type ℓ} where
  -- Every element of a selection passes its test.
  pub select-All : (p : A → Bool) (xs : List A) → All (λ x. p x ≡ true) (select p xs)
  select-All p [] = tt
  select-All p (x ∷ xs) = here (p x) refl (select-All p xs)
    where
      here :
          (b : Bool)
          → p x ≡ b
          → All (λ x. p x ≡ true) (select p xs)
          → All (λ x. p x ≡ true) (if b then x ∷ select p xs else select p xs)
      here true e rest = (e, rest)
      here false e rest = rest

pub take-map {ℓ κ} :
    {A : Type ℓ} {B : Type κ} (f : A → B) (n : ℕ) (xs : List A)
    → take n (map f xs) ≡ map f (take n xs)
take-map f zero xs = refl
take-map f (suc n) [] = refl
take-map f (suc n) (x ∷ xs) = ap (◌∷◌ (f x)) (take-map f n xs)

module _ {ℓ κ} {A : Type ℓ} (P : A → Type κ) where
  pub All-append : (xs : List A) (x : A) → All P xs → P x → All P (xs ++ x ∷ [])
  All-append [] x h k = (k, tt)
  All-append (y ∷ ys) x (h, hs) k = (h, All-append ys x hs k)

  -- What every element has, the one that a test selects has.
  pub All-selected : (p : A → Bool) (xs : List A) (x : A) → All P xs → select p xs ≡ x ∷ [] → P x
  All-selected p xs x h e = (subst (All P) e (All-select P p xs h)).0

module _ {ℓ κ μ} {A : Type ℓ} {P : A → Type κ} {Q : A → Type μ} where
  pub All-implies : ((x : A) → P x → Q x) → (xs : List A) → All P xs → All Q xs
  All-implies f [] h = tt
  All-implies f (x ∷ xs) (h, hs) = (f x h, All-implies f xs hs)
