-- ===== src/Auth/Chain/Adding.antt =====
-- Adding a row to the chains: `create_session` of src/modules/auth/repository.py.
use async_pulse.Prelude.{
  String, eq_iff, ◌≡◌, refl, sym, subst, inl, inr, true, false, Option, none, some, List, [], ◌∷◌,
  ◌++◌, all, All, All-append, arith,
}
use async_pulse.Db.Tables.{
  Tables, user_ids, has, distinct, satisfies_constraints, sessions_hold, session_holds, refers,
}
use async_pulse.Db.Tables.Keys.{has-append, distinct-append, map-id-append}
use async_pulse.Auth.Models.{SessionModel}
use async_pulse.Auth.Rows.{ids}
use async_pulse.Auth.Chain.{links, IsSpent, IsChained, IsRetired}

links-add_first :
    (ss : List SessionModel) (m : SessionModel)
    → m.previous_session_id ≡ none
    → links (ss ++ m ∷ []) ≡ links ss
links-add_first [] m h = ground (arith, h)
links-add_first (s ∷ ss) m h = ground (arith, links-add_first ss m h)

pub links-add_next :
    (ss : List SessionModel) (m : SessionModel) (k : String)
    → m.previous_session_id ≡ some k
    → links (ss ++ m ∷ []) ≡ links ss ++ k ∷ []
links-add_next [] m k h = ground (arith, h)
links-add_next (s ∷ ss) m k h = ground (arith, links-add_next ss m k h)

-- A key that no row has is not named: references are to rows that exist.
unnamed :
    (uids ks : List String) (ss : List SessionModel) (k : String)
    → all (session_holds uids ks) ss ≡ true
    → has ks k ≡ false
    → has (links ss) k ≡ false
unfolding session_holds
unnamed uids ks [] k h n = refl
unnamed uids ks (s ∷ ss) k h n =
    here s.previous_session_id (ground arith) (unnamed uids ks ss k (ground arith) n)
  where
    here :
        (o : Option String)
        → refers ks o ≡ true
        → has (links ss) k ≡ false
        → has (elim o [ none ↦ links ss | some j ↦ j ∷ links ss ]) k ≡ false
    here none r ih = ih
    here (some j) r ih = ground (arith, ih, r, n, eq_iff j k)

Tables-unnamed :
    (t : Tables) (k : String)
    → satisfies_constraints t ≡ true
    → has (ids t.sessions) k ≡ false
    → has (links t.sessions) k ≡ false
unfolding satisfies_constraints sessions_hold
Tables-unnamed t k h = unnamed (user_ids t) (ids t.sessions) t.sessions k (ground arith)

-- A row that was added has a new key.
pub added-new :
    (t : Tables) (m : SessionModel)
    → satisfies_constraints (record t { sessions = t.sessions ++ m ∷ [] }) ≡ true
    → has (ids t.sessions) m.id ≡ false
unfolding satisfies_constraints sessions_hold
added-new t m h = appended (ids t.sessions) (ground (arith, map-id-append t.sessions m))
  where
    appended : (ks : List String) → distinct (ks ++ m.id ∷ []) ≡ true → has ks m.id ≡ false
    appended [] h = refl
    appended (k ∷ ks) h =
        ground (arith, appended ks, has-append ks m.id k, eq_iff k m.id, eq_iff m.id k)

-- Adding a row that nothing was rotated to, in tables that then meet the constraints.
pub IsChained-add_first :
    (t : Tables) (m : SessionModel)
    → satisfies_constraints t ≡ true
    → satisfies_constraints (record t { sessions = t.sessions ++ m ∷ [] }) ≡ true
    → m.previous_session_id ≡ none
    → IsChained t.sessions
    → IsChained (t.sessions ++ m ∷ [])
IsChained-add_first t m h h' first (d, spent) =
    subst (λ ls. (distinct ls ≡ true) × All (IsSpent ls) (t.sessions ++ m ∷ []))
      (sym (links-add_first t.sessions m first))
      (
        d,
        All-append (IsSpent (links t.sessions)) t.sessions m spent
            (inl (Tables-unnamed t m.id h (added-new t m h'))),
      )

IsSpent-link :
    (ls : List String) (k : String) (p : SessionModel)
    → IsSpent ls p
    → IsRetired k p
    → IsSpent (ls ++ k ∷ []) p
IsSpent-link ls k p (inr r) b = inr r
IsSpent-link ls k p (inl n) (inr r) = inr r
IsSpent-link ls k p (inl n) (inl i) =
    inl (ground (arith, has-append ls k p.id, n, i, eq_iff k p.id))

-- Adding the successor of a row that is revoked and has none.
pub IsChained-add_next :
    (t : Tables) (m : SessionModel) (k : String)
    → satisfies_constraints t ≡ true
    → satisfies_constraints (record t { sessions = t.sessions ++ m ∷ [] }) ≡ true
    → m.previous_session_id ≡ some k
    → has (links t.sessions) k ≡ false
    → has (ids t.sessions) k ≡ true
    → All (IsRetired k) t.sessions
    → IsChained t.sessions
    → IsChained (t.sessions ++ m ∷ [])
IsChained-add_next t m k h h' next unlinked stored retired (d, spent) =
    subst (λ ls. (distinct ls ≡ true) × All (IsSpent ls) (t.sessions ++ m ∷ []))
      (sym (links-add_next t.sessions m k next))
      (
        distinct-append (links t.sessions) k d unlinked,
        All-append (IsSpent (links t.sessions ++ k ∷ [])) t.sessions m
            (still t.sessions spent retired) (inl (fresh (added-new t m h'))),
      )
  where
    still :
        (ss : List SessionModel)
        → All (IsSpent (links t.sessions)) ss
        → All (IsRetired k) ss
        → All (IsSpent (links t.sessions ++ k ∷ [])) ss
    still [] a b = tt
    still (p ∷ ps) (a, rest) (b, others) =
        (IsSpent-link (links t.sessions) k p a b, still ps rest others)

    fresh : has (ids t.sessions) m.id ≡ false → has (links t.sessions ++ k ∷ []) m.id ≡ false
    fresh new = ground (
      arith,
      has-append (links t.sessions) k m.id,
      Tables-unnamed t m.id h new,
      stored,
      new,
      eq_iff k m.id,
    )
