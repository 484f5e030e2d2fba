-- ===== src/Users/Listing.antt =====
-- `UserService.list_users` of src/modules/users/service.py, page by page.
use mathlib.Core.List.Perm
use mathlib.Core.List.{Perm}
use native.Mathlib.Nat.{suc-mul}
use async_pulse.Prelude.{
  take-map, All, All-insert_by, All-sort_by, ◌<◌, ◌≢◌, ℕ, zero, suc, ◌+◌, ◌*◌, ◌-◌, ◌≤◌, ◌≡◌, refl,
  sym, ap, ◌∙◌, Bool, true, false, List, [], ◌∷◌, ◌++◌, map, length, take, drop, select, insert_by,
  sort_by, length-sort_by, length-map, arith, if◌then◌else◌,
}
use async_pulse.Python.Result.{Result, ok, err}
use async_pulse.Python.DateTime.{micros}
use async_pulse.Db.World.{World}
use async_pulse.Db.Act.{basic_actions}
use async_pulse.Users.Entities.{User}
use async_pulse.Users.Models.{UserModel}
use async_pulse.Users.Repository
use async_pulse.Users.Repository.{to_entity, is_live, created_after}
use async_pulse.Users.Service.{list_users}
use async_pulse.Users.Router.{offset}

suc_plus : (m n : ℕ) → suc m + n ≡ suc (m + n)
suc_plus m n = omega arith

module _ {ℓ} {A : Type ℓ} where
  take-add : (m n : ℕ) (xs : List A) → take (m + n) xs ≡ take m xs ++ take n (drop m xs)
  take-add zero n xs = ap (λ k. take k xs) (zero_plus n)
    where
      zero_plus : (k : ℕ) → 0 + k ≡ k
      zero_plus k = omega arith
  take-add (suc m) n (x ∷ xs) =
      ap (λ k. take k (x ∷ xs)) (suc_plus m n) ∙ ap (◌∷◌ x) (take-add m n xs)
  take-add (suc m) zero [] = ap (λ k. take k []) (suc_plus m 0)
  take-add (suc m) (suc n) [] = ap (λ k. take k []) (suc_plus m (suc n))

  take-all : (n : ℕ) (xs : List A) → length xs ≤ n → take n xs ≡ xs
  take-all zero [] h = refl
  take-all zero (x ∷ xs) h = elim h [ ]
  take-all (suc n) [] h = refl
  take-all (suc n) (x ∷ xs) h = ap (◌∷◌ x) (take-all n xs (ground arith))

  length-take_le : (n : ℕ) (xs : List A) → length (take n xs) ≤ n
  length-take_le zero xs = ground arith
  length-take_le (suc n) [] = ground arith
  length-take_le (suc n) (x ∷ xs) = ground (arith, length-take_le n xs)

  module _ {κ} {B : Type κ} (f : A → B) where
    pub drop-map : (n : ℕ) (xs : List A) → drop n (map f xs) ≡ map f (drop n xs)
    drop-map zero xs = refl
    drop-map (suc n) [] = refl
    drop-map (suc n) (x ∷ xs) = drop-map n xs

  module _ (before : A → A → Bool) where
    insert_by-Perm : (a : A) (xs : List A) → Perm (insert_by before a xs) (a ∷ xs)
    unfolding insert_by
    insert_by-Perm a [] = Perm.refl _
    insert_by-Perm a (x ∷ xs) = here (before a x) (insert_by-Perm a xs)
      where
        here :
            (b : Bool)
            → Perm (insert_by before a xs) (a ∷ xs)
            → Perm (if b then a ∷ x ∷ xs else x ∷ insert_by before a xs) (a ∷ x ∷ xs)
        here true p = Perm.refl _
        here false p = Perm.trans (Perm.cons x p) (Perm.swap a x xs)

    -- Sorting reorders.
    sort_by-Perm : (xs : List A) → Perm (sort_by before xs) xs
    unfolding sort_by
    sort_by-Perm [] = Perm.refl _
    sort_by-Perm (x ∷ xs) =
        Perm.trans (insert_by-Perm x (sort_by before xs)) (Perm.cons x (sort_by-Perm xs))

-- Every row was created after all that follow.
abbrev pub IsNewestFirst : List UserModel → Type 0
IsNewestFirst [] = Unit
IsNewestFirst (m ∷ ms) = All (λ n. micros n.created_at < micros m.created_at) ms × IsNewestFirst ms

abbrev pub HaveDistinctDates : List UserModel → Type 0
HaveDistinctDates [] = Unit
HaveDistinctDates (m ∷ ms) =
    All (λ n. micros n.created_at ≢ micros m.created_at) ms × HaveDistinctDates ms

All-older :
    (m n : UserModel) (ms : List UserModel)
    → micros n.created_at < micros m.created_at
    → All (λ x. micros x.created_at < micros n.created_at) ms
    → All (λ x. micros x.created_at < micros m.created_at) ms
All-older m n [] h hs = tt
All-older m n (x ∷ ms) h (k, hs) = (omega (arith, h, k), All-older m n ms h hs)

insert_by-IsNewestFirst :
    (m : UserModel) (ms : List UserModel)
    → All (λ n. micros n.created_at ≢ micros m.created_at) ms
    → IsNewestFirst ms
    → IsNewestFirst (insert_by created_after m ms)
unfolding insert_by
insert_by-IsNewestFirst m [] other sorted = (tt, tt)
insert_by-IsNewestFirst m (n ∷ ms) (other, others) (below, sorted) =
    here (created_after m n) refl (insert_by-IsNewestFirst m ms others sorted)
  where
    here :
        (b : Bool)
        → created_after m n ≡ b
        → IsNewestFirst (insert_by created_after m ms)
        → IsNewestFirst (if b then m ∷ n ∷ ms else n ∷ insert_by created_after m ms)
    here true e rest =
        let newer : micros n.created_at < micros m.created_at = ground (arith, e, other) in
        ((newer, All-older m n ms newer below), (below, sorted))
    here false e rest = (
      All-insert_by (λ x. micros x.created_at < micros n.created_at) created_after m ms
          (ground (arith, e)) below,
      rest,
    )

sort_by-IsNewestFirst :
    (ms : List UserModel) → HaveDistinctDates ms → IsNewestFirst (sort_by created_after ms)
unfolding sort_by
sort_by-IsNewestFirst [] distinct = tt
sort_by-IsNewestFirst (m ∷ ms) (other, distinct) =
    insert_by-IsNewestFirst m (sort_by created_after ms)
      (All-sort_by (λ n. micros n.created_at ≢ micros m.created_at) created_after ms other)
      (sort_by-IsNewestFirst ms distinct)

-- The users that a page shows; none where the call raised.
abbrev users_of : Result (List User × ℕ) → List User
users_of (ok (users, total)) = users
users_of (err e) = []

module _ {C : Type 0} (size : ℕ) (w : World C) where
  abbrev page : ℕ → List User
  page n = users_of (list_users (offset (record { page = n; page_size = size })) size w).0

  -- The users of the pages 1 to n, one after another.
  abbrev pub pages : ℕ → List User
  pages zero = []
  pages (suc n) = pages n ++ page (suc n)

  abbrev sorted : List UserModel
  sorted = sort_by created_after (select is_live w.tx.users)

  abbrev ordered : List User
  ordered = map to_entity sorted

  predecessor : (n : ℕ) → suc n - 1 ≡ n
  predecessor n = omega arith

  zero_times : (k : ℕ) → 0 ≡ 0 * k
  zero_times k = omega arith

  offset_of : (n : ℕ) → (suc n - 1) * size ≡ n * size
  offset_of n = ap (λ k. k * size) (predecessor n)

  times_next : (n : ℕ) → suc n * size ≡ n * size + size
  times_next n = suc-mul n size

  page-slice : (n : ℕ) → page (suc n) ≡ take size (drop (n * size) ordered)
  unfolding list_users Repository.list_users basic_actions
  page-slice n =
      rw (offset_of n, drop-map to_entity (n * size) sorted)
        (sym (take-map to_entity size (drop (n * size) sorted)))

  pages-take : (n : ℕ) → pages n ≡ take (n * size) ordered
  pages-take zero = ap (λ k. take k ordered) (zero_times size)
  pages-take (suc n) =
      rw (pages-take n, page-slice n, times_next n) (sym (take-add (n * size) size ordered))

  length-ordered : length ordered ≡ length (select is_live w.tx.users)
  length-ordered = length-map to_entity _ ∙ length-sort_by created_after _

  pages-all : (n : ℕ) → length (select is_live w.tx.users) ≤ n * size → pages n ≡ ordered
  pages-all n h = pages-take n ∙ take-all (n * size) ordered (rw length-ordered h)

  -- Enough pages show, one after another, the live users, each of them once and the newest first, where
  -- no two of them were created at the same time.
  pub pages-partition :
      (n : ℕ)
      → length (select is_live w.tx.users) ≤ n * size
      → HaveDistinctDates (select is_live w.tx.users)
      → (rows : List UserModel) × (pages n ≡ map to_entity rows)
        × IsNewestFirst rows
        × Perm rows (select is_live w.tx.users)
  pages-partition n h distinct = (
    sorted,
    pages-all n h,
    sort_by-IsNewestFirst (select is_live w.tx.users) distinct,
    sort_by-Perm created_after (select is_live w.tx.users),
  )
