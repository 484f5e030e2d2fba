-- ===== src/Db/Tables/Keys.antt =====
-- Which updates of the sessions keep the constraints: those that leave the keys, the references
-- and the texts of every row alone, and the addition of a row with a new key.
use async_pulse.Prelude.{
  String, ◌≡◌, refl, Bool, true, false, ◌||◌, Option, none, some, List, [], ◌∷◌, ◌++◌, map, all,
  select, update_where, str_eq, arith, eq_iff,
}
use async_pulse.Db.Tables.{
  Tables, has, distinct, refers, user_ids, session_ids, session_fits, session_holds, sessions_hold,
  satisfies_constraints, merge_row,
}
use async_pulse.Auth.Models.{SessionModel}

-- The rows agree on what the constraints read.
pub record SameKeys (a b : SessionModel) : Type 0 where
  pub id : a.id ≡ b.id
  pub user_id : a.user_id ≡ b.user_id
  pub previous : a.previous_session_id ≡ b.previous_session_id
  pub device_info : a.device_info ≡ b.device_info
  pub ip_address : a.ip_address ≡ b.ip_address

session_holds-SameKeys :
    (uids sids : List String) {a b : SessionModel}
    → SameKeys a b
    → session_holds uids sids a ≡ session_holds uids sids b
unfolding session_holds session_fits
session_holds-SameKeys uids sids h = cc

abbrev pub row_id : SessionModel → String
row_id s = s.id

module _ (p : SessionModel → Bool) (f : SessionModel → SessionModel)
    (same : (s : SessionModel) → SameKeys (f s) s) where
  map-id-update_where : (ss : List SessionModel) → map row_id (update_where p f ss) ≡ map row_id ss
  map-id-update_where [] = refl
  map-id-update_where (s ∷ ss) = ground (arith, (same s).id, map-id-update_where ss)

  all-holds-update_where :
      (uids sids : List String) (ss : List SessionModel)
      → all (session_holds uids sids) (update_where p f ss) ≡ all (session_holds uids sids) ss
  all-holds-update_where uids sids [] = refl
  all-holds-update_where uids sids (s ∷ ss) =
      ground (arith, session_holds-SameKeys uids sids (same s), all-holds-update_where uids sids ss)

  pub sessions_hold-update_where :
      (uids : List String) (ss : List SessionModel)
      → sessions_hold uids (update_where p f ss) ≡ sessions_hold uids ss
  unfolding sessions_hold
  sessions_hold-update_where uids ss =
      rw (map-id-update_where ss) (rw (all-holds-update_where uids (map row_id ss) ss))

  pub satisfies-update_where :
      (t : Tables)
      → satisfies_constraints (record t { sessions = update_where p f t.sessions })
        ≡ satisfies_constraints t
  unfolding satisfies_constraints
  satisfies-update_where t = rw (sessions_hold-update_where (user_ids t) t.sessions)

abbrev pub found_by : String → SessionModel → Bool
found_by key s = str_eq s.id key

-- Overwriting the one row of a key by a row that agrees with it on what the constraints read.
module _ (m x : SessionModel) (same : SameKeys m x) where
  pub map-id-merge_row :
      (ss : List SessionModel)
      → select (found_by m.id) ss ≡ x ∷ []
      → map row_id (merge_row m ss) ≡ map row_id ss
  map-id-merge_row [] h = cc
  map-id-merge_row (s ∷ ss) h = ground (arith, map-id-merge_row ss, eq_iff s.id m.id)

  all-holds-merge_row :
      (uids sids : List String) (ss : List SessionModel)
      → select (found_by m.id) ss ≡ x ∷ []
      → all (session_holds uids sids) (merge_row m ss) ≡ all (session_holds uids sids) ss
  all-holds-merge_row uids sids [] h = cc
  all-holds-merge_row uids sids (s ∷ ss) h =
      ground (arith, all-holds-merge_row uids sids ss, session_holds-SameKeys uids sids same)

  pub satisfies-merge_row :
      (t : Tables)
      → select (found_by m.id) t.sessions ≡ x ∷ []
      → satisfies_constraints (record t { sessions = merge_row m t.sessions })
        ≡ satisfies_constraints t
  unfolding satisfies_constraints sessions_hold
  satisfies-merge_row t h =
      rw (map-id-merge_row t.sessions h)
        (rw (all-holds-merge_row (user_ids t) (session_ids t) t.sessions h))

pub has-append : (ks : List String) (k j : String) → has (ks ++ k ∷ []) j ≡ (has ks j || str_eq k j)
has-append [] k j = ground arith
has-append (i ∷ ks) k j = ground (arith, has-append ks k j)

pub distinct-append :
    (ks : List String) (k : String)
    → distinct ks ≡ true
    → has ks k ≡ false
    → distinct (ks ++ k ∷ []) ≡ true
distinct-append [] k h n = refl
distinct-append (j ∷ ks) k h n =
    ground (arith, distinct-append ks k, has-append ks k j, eq_iff k j, eq_iff j k)

refers-append :
    (ks : List String) (k : String) (o : Option String)
    → refers ks o ≡ true
    → refers (ks ++ k ∷ []) o ≡ true
refers-append ks k none h = refl
refers-append ks k (some j) h = ground (arith, has-append ks k j)

session_holds-append :
    (uids ks : List String) (k : String) (s : SessionModel)
    → session_holds uids ks s ≡ true
    → session_holds uids (ks ++ k ∷ []) s ≡ true
unfolding session_holds
session_holds-append uids ks k s h = ground (arith, refers-append ks k s.previous_session_id)

all-holds-append :
    (uids ks : List String) (k : String) (ss : List SessionModel) (m : SessionModel)
    → all (session_holds uids ks) ss ≡ true
    → session_holds uids ks m ≡ true
    → all (session_holds uids (ks ++ k ∷ [])) (ss ++ m ∷ []) ≡ true
all-holds-append uids ks k [] m h n = ground (arith, session_holds-append uids ks k m)
all-holds-append uids ks k (s ∷ ss) m h n =
    ground (arith, session_holds-append uids ks k s, all-holds-append uids ks k ss m)

pub map-id-append :
    (ss : List SessionModel) (m : SessionModel)
    → map row_id (ss ++ m ∷ []) ≡ map row_id ss ++ m.id ∷ []
map-id-append [] m = refl
map-id-append (s ∷ ss) m = rw (map-id-append ss m)

-- Adding a row with a new key, of a user and a predecessor that exist.
pub satisfies-add_session :
    (t : Tables) (m : SessionModel)
    → satisfies_constraints t ≡ true
    → has (session_ids t) m.id ≡ false
    → session_holds (user_ids t) (session_ids t) m ≡ true
    → satisfies_constraints (record t { sessions = t.sessions ++ m ∷ [] }) ≡ true
unfolding satisfies_constraints sessions_hold
satisfies-add_session t m h new holds = rw (map-id-append t.sessions m) (
    ground (
      arith,
      distinct-append (session_ids t) m.id,
      all-holds-append (user_ids t) (session_ids t) m.id t.sessions m,
    ))
