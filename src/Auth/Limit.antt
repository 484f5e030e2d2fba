-- ===== src/Auth/Limit.antt =====
-- The limit on active sessions in `AuthService.authenticate`.
pub mod Login
use async_pulse.Prelude.{
  ℕ, zero, suc, ◌+◌, ◌-◌, ◌≤◌, String, ◌≡◌, ◌≢◌, refl, ap, ◌∙◌, sym, subst, ◌⊎◌, inl, inr, Bool,
  true, false, not, ◌&&◌, Option, none, some, List, [], ◌∷◌, ◌++◌, map, length, take, leb, select,
  sort_by, All, All-select, All-take, All-sort_by, select-All, take-map, length-map, length-sort_by,
  str_eq, eq_iff, eq_refl, arith, if◌then◌else◌,
}
use async_pulse.Python.Result.{Result, ok, err}
use async_pulse.Python.DateTime.{DateTime, aware, later}
use async_pulse.Db.Tables.{Tables, has, distinct, merge_row, satisfies_constraints, sessions_hold}
use async_pulse.Db.World.{World, reading}
use async_pulse.Db.Act.{Act, basic_actions}
use async_pulse.Db.Act.Tx.{
  Rel, Post, Tx, Tx-bind, Tx-pure, Tx-now, Tx-write, Tx-flush, Tx-commit, Tx-uuid4, Tx-lift, Tx-if,
}
use async_pulse.Db.Act.Tx.Weaken.{Tx-weaken, Tx-given}
use async_pulse.Env.{Env}
use async_pulse.Env.Cached.{Tx-suppress_delete, Tx-suppress_set_json}
use async_pulse.Auth.Entities.{UserSession, is_revoked, is_some, revoke}
use async_pulse.Auth.Models.{SessionModel}
use async_pulse.Auth.Opening.{active_rows}
use async_pulse.Auth.Repository.{
  has_id, is_active_row, created_before, to_session_entity, to_session_model, update_session,
}
use async_pulse.Auth.Rotation.{retired}
use async_pulse.Auth.Rows.{
  ids, IsStored, All-IsStored, distinct-select, distinct-sort_by, distinct-take,
}
use async_pulse.Auth.Service.Sessions.{revoke_now}
use async_pulse.Auth.Service.Login.{revoke_oldest, enforce_limit}

length-take : (k : ℕ) (ss : List SessionModel) → k ≤ length ss → length (take k ss) ≡ k
length-take zero ss h = refl
length-take (suc k) [] h = ground arith
length-take (suc k) (s ∷ ss) h = ap suc (length-take k ss (ground arith))

pub other-merge :
    (m : SessionModel) (k : String) (ss : List SessionModel)
    → str_eq m.id k ≡ false
    → select (has_id k) (merge_row m ss) ≡ select (has_id k) ss
other-merge m k [] h = ground (arith, h)
other-merge m k (s ∷ ss) h = ground (arith, h, eq_iff s.id m.id, other-merge m k ss h)

module _ (user_id : String) (at : DateTime) where
  abbrev pub is_active : SessionModel → Bool
  is_active = is_active_row user_id at

  -- Retiring an active row leaves one active row less.
  count-merge :
      (x : SessionModel) (now : DateTime) (ss : List SessionModel)
      → IsStored ss x
      → is_active x ≡ true
      → suc (length (select is_active (merge_row (retired x now) ss)))
        ≡ length (select is_active ss)
  count-merge x now [] h a = cc
  count-merge x now (s ∷ ss) h a = ground (arith, h, a, eq_iff s.id x.id, count-merge x now ss)

  IsStored-merge :
      (x : SessionModel) (now : DateTime) (ss ys : List SessionModel)
      → All (IsStored ss) ys
      → has (ids ys) x.id ≡ false
      → All (IsStored (merge_row (retired x now) ss)) ys
  IsStored-merge x now ss [] h d = tt
  IsStored-merge x now ss (y ∷ ys) (h, hs) d = (
    other-merge (retired x now) y.id ss (ground (arith, d, eq_iff x.id y.id, eq_iff y.id x.id)) ∙ h,
    IsStored-merge x now ss ys hs (ground arith),
  )

active-unrevoked :
    (user_id : String) (at : DateTime) (x : SessionModel)
    → is_active user_id at x ≡ true
    → x.revoked_at ≡ none
active-unrevoked user_id at x h = ground arith

-- The old session, as the loop stores it.
abbrev IsRetired : SessionModel → UserSession → Type 0
IsRetired x old = (now : DateTime) × (to_session_model old ≡ retired x now)

module _ {C : Type 0} {P E : Rel} where
  Tx-revoke_now :
      (x : SessionModel)
      → x.revoked_at ≡ none
      → Tx {C = C} P (revoke_now (to_session_entity x)) (λ old c t. P c t × IsRetired x old) E
  unfolding revoke_now is_revoked revoke to_session_entity to_session_model
  Tx-revoke_now x live =
      Tx-if (is_revoked (to_session_entity x)) _ _ (λ e. absurd (ground (arith, live, e)))
        λ _. Tx-bind Tx-now λ at. Tx-pure _ (λ c t p. (p, (at, ground (arith, live))))

module _ (user_id : String) (at : DateTime) (c₀ : Tables) where
  -- The rows that are still to be retired, and how many active ones may stay beside them.
  abbrev pub Pending : List SessionModel → Rel
  Pending l c t =
      All (IsStored t.sessions) l
      × (length (select (is_active user_id at) t.sessions) ≤ 4 + length l)
      × (c ≡ c₀)

  abbrev Before : Rel
  Before c t = c ≡ c₀

  retire :
      (x : SessionModel) (l : List SessionModel) (old : UserSession) (c t : Tables)
      → IsRetired x old
      → is_active user_id at x ≡ true
      → has (ids l) x.id ≡ false
      → Pending (x ∷ l) c t
      → Pending l c (record t { sessions = merge_row (to_session_model old) t.sessions })
  retire x l old c t (now, e) a d ((h, hs), n, b) = rw e (
    IsStored-merge user_id at x now t.sessions l hs d,
    ground (arith, n, count-merge user_id at x now t.sessions h a),
    b,
  )

module _ {C : Type 0} (env : Env C) (user_id : String) (at : DateTime) (c₀ : Tables) where
  Tx-revoke_oldest :
      (l : List SessionModel)
      → All (λ x. is_active user_id at x ≡ true) l
      → distinct (ids l) ≡ true
      → Tx
          (Pending user_id at c₀ l)
          (revoke_oldest env (map to_session_entity l))
          (λ _. Pending user_id at c₀ [])
          (Before user_id at c₀)
  unfolding revoke_oldest update_session
  Tx-revoke_oldest [] a d = Tx-pure _ (λ c t p. p)
  Tx-revoke_oldest (x ∷ l) (a, rest) d =
      Tx-bind (Tx-revoke_now x (active-unrevoked user_id at x a)) λ old. Tx-given λ retired_now.
        Tx-bind {Q = λ _. Pending user_id at c₀ l}
          (Tx-bind
            (Tx-write _
              (λ c t p. retire user_id at c₀ x l old c t retired_now a (ground (arith, d)) p))
            λ _. Tx-bind (Tx-flush (λ c t p. p.2)) λ _. Tx-pure _ (λ c t p. p))
          λ stored.
            Tx-bind (Tx-suppress_delete env.cache _)
              λ _. Tx-revoke_oldest l rest (ground (arith, d))

-- The rows that the loop is given.
abbrev pub listed : String → DateTime → Tables → List SessionModel
listed user_id at t = sort_by created_before (active_rows user_id at t)

length-listed :
    (user_id : String) (at : DateTime) (t : Tables)
    → length (map to_session_entity (listed user_id at t)) ≡ length (active_rows user_id at t)
length-listed user_id at t = length-map to_session_entity _ ∙ length-sort_by created_before _

distinct-sessions : (t : Tables) → satisfies_constraints t ≡ true → distinct (ids t.sessions) ≡ true
unfolding satisfies_constraints sessions_hold
distinct-sessions t h = ground arith

module _ (user_id : String) (at : DateTime) (t : Tables)
    (holds : satisfies_constraints t ≡ true) where
  pub listed-IsStored : All (IsStored t.sessions) (listed user_id at t)
  listed-IsStored = All-sort_by (IsStored t.sessions) created_before (active_rows user_id at t) (
      All-select (IsStored t.sessions) (is_active user_id at) t.sessions
        (All-IsStored t.sessions (distinct-sessions t holds)))

  listed-active : All (λ x. is_active user_id at x ≡ true) (listed user_id at t)
  listed-active =
      All-sort_by (λ x. is_active user_id at x ≡ true) created_before (active_rows user_id at t)
        (select-All (is_active user_id at) t.sessions)

  pub listed-distinct : distinct (ids (listed user_id at t)) ≡ true
  listed-distinct =
      distinct-sort_by (active_rows user_id at t)
      ∙ distinct-select (is_active user_id at) t.sessions (distinct-sessions t holds)

module _ {C : Type 0} (env : Env C) (user_id : String) (at : DateTime) (c₀ t₀ : Tables)
    (holds : satisfies_constraints t₀ ≡ true) where
  -- The oldest rows that go.
  abbrev surplus : List SessionModel
  surplus = take (length (active_rows user_id at t₀) - 4) (listed user_id at t₀)

  surplus-taken :
      take
        (length (map to_session_entity (listed user_id at t₀)) - 4)
        (map to_session_entity (listed user_id at t₀))
      ≡ map to_session_entity surplus
  surplus-taken =
      rw (length-listed user_id at t₀)
        (take-map to_session_entity (length (active_rows user_id at t₀) - 4) (listed user_id at t₀))

  length-surplus : length surplus ≡ length (active_rows user_id at t₀) - 4
  length-surplus =
      length-take (length (active_rows user_id at t₀) - 4) (listed user_id at t₀)
        (rw (length-sort_by created_before (active_rows user_id at t₀)) (ground arith))

  surplus-Pending : Pending user_id at c₀ surplus c₀ t₀
  surplus-Pending = (
    All-take (IsStored t₀.sessions) _ (listed user_id at t₀) (listed-IsStored user_id at t₀ holds),
    rw length-surplus (ground arith),
    refl,
  )

  pub Tx-enforce_limit :
      Tx
        (λ c t. (c ≡ c₀) × (t ≡ t₀))
        (enforce_limit env (map to_session_entity (listed user_id at t₀)))
        (λ _. Pending user_id at c₀ [])
        (λ c t. c ≡ c₀)
  unfolding enforce_limit
  Tx-enforce_limit =
      Tx-if (leb 5 (length (map to_session_entity (listed user_id at t₀)))) _ _
        (λ _. rw surplus-taken (record {
          at = λ w (c, t).
              (Tx-revoke_oldest env user_id at c₀ surplus
                  (All-take (λ x. is_active user_id at x ≡ true) _ (listed user_id at t₀)
                    (listed-active user_id at t₀ holds))
                  (distinct-take _ (listed user_id at t₀) (listed-distinct user_id at t₀ holds))).at
                w (rw (c, t) surplus-Pending);
        }))
        (λ e.
          Tx-pure tt (λ c t (p, q). (tt, rw q (ground (arith, e, length-listed user_id at t₀)), p)))
