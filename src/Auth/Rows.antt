-- ===== src/Auth/Rows.antt =====
-- Rows of the table `sessions` with distinct keys, as the queries and `merge` of
-- src/modules/auth/repository.py meet them.
use async_pulse.Prelude.{
  ℕ, zero, suc, String, ◌≡◌, ◌≢◌, refl, Bool, true, false, not, ◌&&◌, ◌||◌, List, [], ◌∷◌, ◌++◌,
  map, all, take, select, insert_by, sort_by, All, str_eq, eq_iff, eq_refl, arith,
}
use async_pulse.Db.Tables.{has, distinct, merge_row}
use async_pulse.Db.Tables.Keys.{row_id}
use async_pulse.Auth.Models.{SessionModel}
use async_pulse.Auth.Repository.{has_id, created_before}

abbrev pub ids : List SessionModel → List String
ids ss = map (λ s. s.id) ss

-- The one row of its key.
abbrev pub IsStored : List SessionModel → SessionModel → Type 0
IsStored ss x = select (has_id x.id) ss ≡ x ∷ []

absent-select :
    (k : String) (ss : List SessionModel) → has (ids ss) k ≡ false → select (has_id k) ss ≡ []
absent-select k [] h = refl
absent-select k (s ∷ ss) h = ground (arith, absent-select k ss)

absent-All :
    (k : String) (ss : List SessionModel)
    → has (ids ss) k ≡ false
    → All (λ x. str_eq k x.id ≡ false) ss
absent-All k [] h = tt
absent-All k (s ∷ ss) h =
    (ground (arith, eq_iff k s.id, eq_iff s.id k), absent-All k ss (ground arith))

IsStored-tail :
    (y : SessionModel) (ys xs : List SessionModel)
    → All (IsStored ys) xs
    → All (λ x. str_eq y.id x.id ≡ false) xs
    → All (IsStored (y ∷ ys)) xs
IsStored-tail y ys [] h k = tt
IsStored-tail y ys (x ∷ xs) (h, hs) (k, ks) = (ground (arith, h, k), IsStored-tail y ys xs hs ks)

-- Where the keys are distinct, every row is the one of its key.
pub All-IsStored : (ss : List SessionModel) → distinct (ids ss) ≡ true → All (IsStored ss) ss
All-IsStored [] h = tt
All-IsStored (y ∷ ys) h = (
  ground (arith, eq_refl y.id, absent-select y.id ys (ground arith)),
  IsStored-tail y ys ys (All-IsStored ys (ground arith)) (absent-All y.id ys (ground arith)),
)

-- Keys under the ways in which a query makes a list.
has-select :
    (p : SessionModel → Bool) (ss : List SessionModel) (k : String)
    → has (ids ss) k ≡ false
    → has (ids (select p ss)) k ≡ false
has-select p [] k h = refl
has-select p (s ∷ ss) k h = ground (arith, has-select p ss k)

pub distinct-select :
    (p : SessionModel → Bool) (ss : List SessionModel)
    → distinct (ids ss) ≡ true
    → distinct (ids (select p ss)) ≡ true
distinct-select p [] h = refl
distinct-select p (s ∷ ss) h = ground (arith, has-select p ss s.id, distinct-select p ss)

has-insert_by :
    (a : SessionModel) (ss : List SessionModel) (k : String)
    → has (ids (insert_by created_before a ss)) k ≡ (str_eq a.id k || has (ids ss) k)
unfolding insert_by
has-insert_by a [] k = refl
has-insert_by a (s ∷ ss) k = ground (arith, has-insert_by a ss k)

distinct-insert_by :
    (a : SessionModel) (ss : List SessionModel)
    → distinct (ids (insert_by created_before a ss))
      ≡ (not (has (ids ss) a.id) && distinct (ids ss))
unfolding insert_by
distinct-insert_by a [] = refl
distinct-insert_by a (s ∷ ss) =
    ground
      (arith, has-insert_by a ss s.id, distinct-insert_by a ss, eq_iff a.id s.id, eq_iff s.id a.id)

has-sort_by :
    (ss : List SessionModel) (k : String) → has (ids (sort_by created_before ss)) k ≡ has (ids ss) k
unfolding sort_by
has-sort_by [] k = refl
has-sort_by (s ∷ ss) k =
    ground (arith, has-insert_by s (sort_by created_before ss) k, has-sort_by ss k)

pub distinct-sort_by :
    (ss : List SessionModel) → distinct (ids (sort_by created_before ss)) ≡ distinct (ids ss)
unfolding sort_by
distinct-sort_by [] = refl
distinct-sort_by (s ∷ ss) = ground (
  arith,
  distinct-insert_by s (sort_by created_before ss),
  has-sort_by ss s.id,
  distinct-sort_by ss,
)

has-take :
    (n : ℕ) (ss : List SessionModel) (k : String)
    → has (ids ss) k ≡ false
    → has (ids (take n ss)) k ≡ false
has-take zero ss k h = refl
has-take (suc n) [] k h = refl
has-take (suc n) (s ∷ ss) k h = ground (arith, has-take n ss k)

pub distinct-take :
    (n : ℕ) (ss : List SessionModel) → distinct (ids ss) ≡ true → distinct (ids (take n ss)) ≡ true
distinct-take zero ss h = refl
distinct-take (suc n) [] h = refl
distinct-take (suc n) (s ∷ ss) h = ground (arith, has-take n ss s.id, distinct-take n ss)

-- The row of a key once it has been overwritten.
pub select-merge_row :
    (k : String) (x m : SessionModel) (ss : List SessionModel)
    → m.id ≡ k
    → select (has_id k) ss ≡ x ∷ []
    → select (has_id k) (merge_row m ss) ≡ m ∷ []
select-merge_row k x m [] e h = cc
select-merge_row k x m (s ∷ ss) e h =
    ground
      (arith, h, e, eq_iff s.id k, eq_iff s.id m.id, eq_iff m.id k, select-merge_row k x m ss e)

-- The row that was added.
pub select-added :
    (ss : List SessionModel) (m : SessionModel)
    → has (ids ss) m.id ≡ false
    → select (has_id m.id) (ss ++ m ∷ []) ≡ m ∷ []
select-added [] m h = ground (arith, eq_iff m.id m.id)
select-added (s ∷ ss) m h = ground (arith, h, eq_iff s.id m.id, select-added ss m)

-- A row of another key does not change what is found.
pub select-beside :
    (k : String) (ss : List SessionModel) (m : SessionModel)
    → m.id ≢ k
    → select (has_id k) (ss ++ m ∷ []) ≡ select (has_id k) ss
select-beside k [] m h = ground (arith, h, eq_iff m.id k)
select-beside k (s ∷ ss) m h = ground (arith, select-beside k ss m h)

-- What a row that was found tells of the table.
pub found-id :
    (key : String) (ss : List SessionModel) (m : SessionModel)
    → select (has_id key) ss ≡ m ∷ []
    → m.id ≡ key
found-id key [] m h = cc
found-id key (s ∷ ss) m h = ground (arith, found-id key ss m, eq_iff s.id key)

pub found-has :
    (key : String) (ss : List SessionModel) (m : SessionModel)
    → select (has_id key) ss ≡ m ∷ []
    → has (map row_id ss) m.id ≡ true
found-has key [] m h = cc
found-has key (s ∷ ss) m h = ground (arith, found-has key ss m, eq_iff s.id m.id)

pub found-all :
    (p : SessionModel → Bool) (key : String) (ss : List SessionModel) (m : SessionModel)
    → select (has_id key) ss ≡ m ∷ []
    → all p ss ≡ true
    → p m ≡ true
found-all p key [] m h a = cc
found-all p key (s ∷ ss) m h a = ground (arith, found-all p key ss m)
