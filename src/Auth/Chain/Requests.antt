-- ===== src/Auth/Chain/Requests.antt =====
-- The use cases of src/modules/auth/service.py keep the chains.
use mathlib.Core.Option
use async_pulse.Prelude.{
  String, eq_iff, ◌≡◌, refl, sym, subst, Option, none, some, List, [], ◌∷◌, select, select-head,
  arith,
}
use async_pulse.Python.Result.{ok}
use async_pulse.Db.Tables.{Tables}
use async_pulse.Db.Rows.{scalar_one_or_none, scalar_one_or_none-some}
use async_pulse.Db.Act.{Act, pure}
use async_pulse.Db.Act.Tx.{Rel, Tx, Tx-bind, Tx-pure, Tx-now, Tx-commit, Tx-query, Tx-lift, Tx-if}
use async_pulse.Db.Act.Tx.Weaken.{Tx-given, Tx-exists, Tx-from}
use async_pulse.Env.{Env}
use async_pulse.Env.Cached.{Tx-suppress_delete}
use async_pulse.Auth.Models.{SessionModel}
use async_pulse.Auth.Entities.{UserSession, is_revoked, revoke}
use async_pulse.Auth.Repository.{has_id, to_session_entity, to_session_model, get_session_by_id}
use async_pulse.Auth.Rows.{IsStored}
use async_pulse.Auth.Locked.{Tx-get_active_sessions}
use async_pulse.Auth.Chain.Invariant.{SessionInvariant, Retires}
use async_pulse.Auth.Chain.Writes.{Good, Tx-update_session, Tx-revoke_all}
use async_pulse.Auth.Service.Sessions.{revoke_now}
use async_pulse.Auth.Service.Logout.{purge_suppressed, logout_all, logout_session, logout}

module _ {C : Type 0} {P E : Rel} where
  pub Tx-revoke_now :
      (x : SessionModel)
      → Tx {C = C} P
          (revoke_now (to_session_entity x))
          (λ old c t. P c t × Retires (to_session_model old) x)
          E
  unfolding revoke_now is_revoked revoke to_session_entity to_session_model
  Tx-revoke_now x =
      Tx-if (is_revoked (to_session_entity x)) _ _
        (λ e. Tx-pure _ (λ c t p. (
          p,
          record {
            id = refl;
            previous = refl;
            revoked = λ r. ground (arith, e, r);
            otherwise = refl;
          },
        )))
        (λ e. Tx-bind Tx-now λ at. Tx-pure _ (λ c t p. (
          p,
          record {
            id = refl;
            previous = refl;
            revoked = λ r. ground (arith, e, r);
            otherwise = refl;
          },
        )))

-- The one row of a key, as an entity.
abbrev pub IsFoundRow : String → Option UserSession → Tables → Type 0
IsFoundRow k none t = Unit
IsFoundRow k (some s) t = (x : SessionModel) × IsStored t.sessions x × (s ≡ to_session_entity x)

IsFoundRow-scalar :
    (k : String) (t : Tables) (o : Option SessionModel)
    → scalar_one_or_none (select (has_id k) t.sessions) ≡ ok o
    → IsFoundRow k (Option.map to_session_entity o) t
IsFoundRow-scalar k t none h = tt
IsFoundRow-scalar k t (some x) h =
    let one : select (has_id k) t.sessions ≡ x ∷ [] = scalar_one_or_none-some _ x h in
    let same : x.id ≡ k = (eq_iff x.id k).0 (select-head (has_id k) t.sessions x [] one) in
    (x, subst (λ j. select (has_id j) t.sessions ≡ x ∷ []) (sym same) one, refl)

module _ {C : Type 0} {P : Rel} where
  pub Tx-get_session_by_id :
      (k : String) → Tx {C = C} P (get_session_by_id k) (λ o c t. P c t × IsFoundRow k o t) P
  unfolding get_session_by_id
  Tx-get_session_by_id k = Tx-bind (Tx-query _) λ rows.
      Tx-bind {Q = λ o c t. P c t × IsFoundRow k (Option.map to_session_entity o) t}
        (Tx-lift _ (λ o c t e h. (h.0, IsFoundRow-scalar k t o (rw (← h.1) e))) (λ c t h. h.0))
        λ m. Tx-pure _ (λ c t h. h)

-- What was found as an entity is used as a row.
abbrev pub Stored : ⦃inv : SessionInvariant⦄ → (Tables → Type 0) → SessionModel → Rel
Stored R x c t = Good c t × IsStored t.sessions x × R t

module _ ⦃inv : SessionInvariant⦄ {C A : Type 0} (f : UserSession → Act C A) {Q : A → Rel}
    {E : Rel} where
  pub Tx-found :
      ((x : SessionModel) → Tx (Stored (λ t. Unit {0}) x) (f (to_session_entity x)) Q E)
      → (k : String) (s : UserSession) → Tx (λ c t. Good c t × IsFoundRow k (some s) t) (f s) Q E
  Tx-found h k s =
      Tx-from
        {P' = λ c t.
          (x : SessionModel) × (Stored (λ t. Unit {0}) x c t × (s ≡ to_session_entity x))}
        (λ c t (g, (x, i, e)). (x, ((g, i, tt), e))) (Tx-exists λ x. Tx-given λ e. rw (e) (h x))

module _ ⦃inv : SessionInvariant⦄ {C : Type 0} (env : Env C) where
  Tx-purge_suppressed :
      {P E : Rel} (l : List UserSession) → Tx P (purge_suppressed env l) (λ _. P) E
  unfolding purge_suppressed
  Tx-purge_suppressed [] = Tx-pure tt (λ c t p. p)
  Tx-purge_suppressed (s ∷ rest) =
      Tx-bind (Tx-suppress_delete env.cache _)
        λ _. Tx-bind (Tx-suppress_delete env.cache _) λ _. Tx-purge_suppressed rest

  pub Tx-logout_all : (user_id : String) → Tx Good (logout_all env user_id) (λ _. Good) Good
  unfolding logout_all
  Tx-logout_all user_id = Tx-bind (Tx-get_active_sessions user_id) λ active.
      Tx-bind (Tx-revoke_all user_id) λ _.
        Tx-bind {Q = λ _. Good} (Tx-commit (λ c t p. (p.1, p.1))) λ _. Tx-purge_suppressed active

  Tx-logout_row :
      (session_id : String) (x : SessionModel)
      → Tx
          (Stored (λ t. Unit {0}) x)
          (logout_session env session_id (to_session_entity x))
          (λ _. Good)
          Good
  unfolding logout_session
  Tx-logout_row session_id x = Tx-bind (Tx-revoke_now x) λ old. Tx-given λ r.
      Tx-bind (Tx-update_session {R' = λ t. Unit {0}} old x r (λ t h p. tt)) λ stored.
        Tx-bind {Q = λ _. Good} (Tx-commit (λ c t p. (p.0.1, p.0.1)))
          λ _. Tx-bind (Tx-suppress_delete env.cache _) λ _. Tx-suppress_delete env.cache _

  Tx-logout_found :
      (session_id : String) (o : Option UserSession)
      → Tx {C = C}
          (λ c t. Good c t × IsFoundRow session_id o t)
          (elim o [ none ↦ pure tt | some s ↦ logout_session env session_id s ])
          (λ _. Good)
          Good
  Tx-logout_found session_id none = Tx-pure tt (λ c t p. p.0)
  Tx-logout_found session_id (some s) =
      Tx-found (logout_session env session_id) (λ x. Tx-logout_row session_id x) session_id s

  pub Tx-logout : (session_id : String) → Tx Good (logout env session_id) (λ _. Good) Good
  unfolding logout
  Tx-logout session_id =
      Tx-bind (Tx-get_session_by_id session_id) λ found. Tx-logout_found session_id found
