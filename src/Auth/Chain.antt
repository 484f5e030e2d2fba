-- ===== src/Auth/Chain.antt =====
-- Chains of rotated sessions: each row names the one that it was rotated from. What the writes of
-- src/modules/auth/repository.py keep of them.
pub mod Adding
pub mod Invariant
pub mod Writes
pub mod Requests
pub mod Refresh
pub mod Login
pub mod Accounts
pub mod Erasure
pub mod Commands
pub mod Reachable
pub mod Linear
pub mod History
use async_pulse.Prelude.{
  String, str_eq, eq_iff, ◌≡◌, ◌≢◌, refl, sym, subst, ◌⊎◌, inl, inr, Bool, true, false, ◌||◌,
  Option, none, some, List, [], ◌∷◌, ◌++◌, map, all, select, update_where, All, All-updated,
  All-append, All-implies, All-selected, arith, if◌then◌else◌,
}
use async_pulse.Python.DateTime.{DateTime}
use async_pulse.Db.Tables.{
  Tables, user_ids, has, distinct, merge_row, satisfies_constraints, sessions_hold, session_holds,
  refers,
}
use async_pulse.Db.Tables.Keys.{has-append, distinct-append, map-id-append}
use async_pulse.Auth.Models.{SessionModel}
use async_pulse.Auth.Repository.{has_id, set_revoked}
use async_pulse.Auth.Rows.{ids, IsStored}

-- The sessions that were rotated, once for each successor.
abbrev pub links : List SessionModel → List String
links [] = []
links (s ∷ ss) =
    let rest = links ss in elim s.previous_session_id [ none ↦ rest | some k ↦ k ∷ rest ]

abbrev pub IsSpent : List String → SessionModel → Type 0
IsSpent ls s = (has ls s.id ≡ false) ⊎ (s.revoked_at ≢ none)

-- A session has one successor at most, and one that has a successor is revoked.
abbrev pub IsChained : List SessionModel → Type 0
IsChained ss = (distinct (links ss) ≡ true) × All (IsSpent (links ss)) ss

-- Revoking rows.
links-update_where :
    (p : SessionModel → Bool) (at : DateTime) (ss : List SessionModel)
    → links (update_where p (set_revoked at) ss) ≡ links ss
links-update_where p at [] = refl
links-update_where p at (s ∷ ss) = ground (arith, links-update_where p at ss)

pub IsChained-update_where :
    (p : SessionModel → Bool) (at : DateTime) (ss : List SessionModel)
    → IsChained ss
    → IsChained (update_where p (set_revoked at) ss)
IsChained-update_where p at ss (d, h) =
    rw (links-update_where p at ss)
      (d, All-updated (IsSpent (links ss)) p (set_revoked at) (λ s h. inr (λ r. cc)) ss h)

-- Overwriting the one row of a key by a revoked one with the same predecessor.
module _ (m x : SessionModel) (previous : m.previous_session_id ≡ x.previous_session_id)
    (revoked : m.revoked_at ≢ none) where
  pub links-merge_row :
      (ss : List SessionModel)
      → select (has_id m.id) ss ≡ x ∷ []
      → links (merge_row m ss) ≡ links ss
  links-merge_row [] h = cc
  links-merge_row (s ∷ ss) h = ground (arith, links-merge_row ss)

  All-merge_row :
      (ls : List String) (ss : List SessionModel)
      → All (IsSpent ls) ss
      → All (IsSpent ls) (merge_row m ss)
  All-merge_row ls [] h = (inr revoked, tt)
  All-merge_row ls (s ∷ ss) (h, hs) = here (str_eq s.id m.id) (All-merge_row ls ss hs)
    where
      here :
          (b : Bool)
          → All (IsSpent ls) (merge_row m ss)
          → All (IsSpent ls) (if b then m ∷ ss else s ∷ merge_row m ss)
      here true rest = (inr revoked, hs)
      here false rest = (h, rest)

  pub IsChained-merge_row :
      (ss : List SessionModel)
      → select (has_id m.id) ss ≡ x ∷ []
      → IsChained ss
      → IsChained (merge_row m ss)
  IsChained-merge_row ss e (d, h) = rw (links-merge_row ss e) (d, All-merge_row (links ss) ss h)

pub has-merge_row :
    (m : SessionModel) (ss : List SessionModel) → has (ids (merge_row m ss)) m.id ≡ true
has-merge_row m [] = ground (arith, eq_iff m.id m.id)
has-merge_row m (s ∷ ss) = ground (arith, eq_iff m.id m.id, has-merge_row m ss)

-- The rows of a key are revoked.
abbrev pub IsRetired : String → SessionModel → Type 0
IsRetired k p = (p.id ≢ k) ⊎ (p.revoked_at ≢ none)

none-IsRetired :
    (k : String) (ss : List SessionModel) → select (has_id k) ss ≡ [] → All (IsRetired k) ss
none-IsRetired k [] h = tt
none-IsRetired k (s ∷ ss) h =
    (inl (λ e. ground (arith, h, e, eq_iff s.id k)), none-IsRetired k ss (ground arith))

pub merge_row-IsRetired :
    (m x : SessionModel) (ss : List SessionModel)
    → m.revoked_at ≢ none
    → select (has_id m.id) ss ≡ x ∷ []
    → All (IsRetired m.id) (merge_row m ss)
merge_row-IsRetired m x [] r h = cc
merge_row-IsRetired m x (s ∷ ss) r h = here (str_eq s.id m.id) refl h (merge_row-IsRetired m x ss r)
  where
    here :
        (b : Bool)
        → str_eq s.id m.id ≡ b
        → (if b then s ∷ select (has_id m.id) ss else select (has_id m.id) ss) ≡ x ∷ []
        → (select (has_id m.id) ss ≡ x ∷ [] → All (IsRetired m.id) (merge_row m ss))
        → All (IsRetired m.id) (if b then m ∷ ss else s ∷ merge_row m ss)
    here true e h ih = (inr r, none-IsRetired m.id ss (ground (arith, h)))
    here false e h ih = (inl (λ i. ground (arith, e, i, eq_iff s.id m.id)), ih h)
