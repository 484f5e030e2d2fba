-- ===== src/Auth/Chain/History.antt =====
-- The stored sessions as a history: rows are added and revoked, and nothing else happens to them.
use async_pulse.Prelude.{
  str_eq, eq_iff, ◌≡◌, ◌≢◌, refl, sym, ◌∙◌, ap, subst, Bool, true, false, none, List, [], ◌∷◌, ◌++◌,
  select, update_where, All, All-implies, select-update_where, arith, if◌then◌else◌,
}
use async_pulse.Python.DateTime.{DateTime}
use async_pulse.Db.Tables.{Tables, merge_row, satisfies_constraints, sessions_hold}
use async_pulse.Db.World.{World}
use async_pulse.Env.{Env}
use async_pulse.Auth.Models.{SessionModel}
use async_pulse.Auth.Repository.{has_id, set_revoked}
use async_pulse.Auth.Limit.{other-merge}
use async_pulse.Auth.Rows.{IsStored, All-IsStored, found-has, select-beside, select-merge_row}
use async_pulse.Auth.Chain.Adding.{added-new}
use async_pulse.Auth.Chain.Invariant.{SessionInvariant, Retires}
use async_pulse.Auth.Chain.Linear.{IsLinear}
use async_pulse.Auth.Chain.Reachable.{Reachable, Reachable-keeps}

-- What has become of a row: it is there, as it was but for its revocation time, and revoked if it was.
pub record IsLater (x y : SessionModel) (ss : List SessionModel) : Type 0 where
  pub stored : IsStored ss y
  pub otherwise : y ≡ record x { revoked_at = y.revoked_at }
  pub revoked : x.revoked_at ≢ none → y.revoked_at ≢ none

abbrev pub Lasts : List SessionModel → SessionModel → Type 0
Lasts ss x = (y : SessionModel) × IsLater x y ss

module _ (x : SessionModel) where
  Lasts-add :
      (t : Tables) (m : SessionModel)
      → satisfies_constraints (record t { sessions = t.sessions ++ m ∷ [] }) ≡ true
      → Lasts t.sessions x
      → Lasts (t.sessions ++ m ∷ []) x
  Lasts-add t m h (y, l) = (
    y,
    record {
      stored = select-beside y.id t.sessions m other ∙ l.stored;
      otherwise = l.otherwise;
      revoked = l.revoked;
    },
  )
    where
      other : m.id ≢ y.id
      other e = ground (arith, e, added-new t m h, found-has y.id t.sessions y l.stored)

  Lasts-overwrite :
      (m z : SessionModel) (ss : List SessionModel)
      → Retires m z
      → IsStored ss z
      → Lasts ss x
      → Lasts (merge_row m ss) x
  Lasts-overwrite m z ss r h (y, l) = here (str_eq m.id y.id) refl
    where
      this : str_eq m.id y.id ≡ true → z ≡ y
      this e =
          let same : z.id ≡ y.id = sym r.id ∙ (eq_iff m.id y.id).0 e in
          let both : z ∷ [] ≡ y ∷ [] = sym h ∙ ap (λ k. select (has_id k) ss) same ∙ l.stored in cc

      here : (b : Bool) → str_eq m.id y.id ≡ b → Lasts (merge_row m ss) x
      here true e = (
        m,
        record {
          stored =
              select-merge_row m.id z m ss refl
                (subst (λ k. select (has_id k) ss ≡ z ∷ []) (sym r.id) h);
          otherwise =
              let at_m : SessionModel → SessionModel =
                λ v. record v { revoked_at = m.revoked_at } in
              r.otherwise ∙ ap at_m (this e ∙ l.otherwise);
          revoked = λ _. r.revoked;
        },
      )
      here false e = (
        y,
        record {
          stored = other-merge m y.id ss e ∙ l.stored;
          otherwise = l.otherwise;
          revoked = l.revoked;
        },
      )

  Lasts-revoke :
      (p : SessionModel → Bool) (at : DateTime) (ss : List SessionModel)
      → Lasts ss x
      → Lasts (update_where p (set_revoked at) ss) x
  Lasts-revoke p at ss (y, l) = here (p y) refl
    where
      found :
          select (has_id y.id) (update_where p (set_revoked at) ss)
          ≡ (if p y then set_revoked at y else y) ∷ []
      found =
          select-update_where (has_id y.id) p (set_revoked at) (λ s. refl) ss
          ∙ ap (update_where p (set_revoked at)) l.stored

      here : (b : Bool) → p y ≡ b → Lasts (update_where p (set_revoked at) ss) x
      here true e = (
        set_revoked at y,
        record {
          stored = found ∙ rw e refl;
          otherwise = ap (set_revoked at) l.otherwise;
          revoked = λ _ n. cc;
        },
      )
      here false e =
          (y, record { stored = found ∙ rw e refl; otherwise = l.otherwise; revoked = l.revoked })

  instance abbrev lasting : SessionInvariant
  lasting = record {
    Holds = λ ss. Lasts ss x;
    add = λ t m h k. Lasts-add t m k;
    overwrite = Lasts-overwrite;
    revoke = Lasts-revoke;
  }

module _ {C : Type 0} (env : Env C) where
  session-Lasts :
      (w w' : World C) (x : SessionModel)
      → IsLinear w.committed
      → Reachable env false w w'
      → IsStored w.committed.sessions x
      → Lasts w'.committed.sessions x
  session-Lasts w w' x (h, c) r stored =
      (Reachable-keeps ⦃inv = lasting x⦄ env false (λ user_id e. cc) w w'
        (h, (c, (x, record { stored = stored; otherwise = refl; revoked = λ n. n }))) r).1.1

  -- Sessions are a history: where in the committed tables the constraints hold and the chains are
  -- linear, every row of `sessions` is there in every state that requests and commands other than a hard
  -- delete lead to, the same but for its revocation time, and revoked if it was.
  pub sessions_are_history :
      (w w' : World C)
      → IsLinear w.committed
      → Reachable env false w w'
      → All (Lasts w'.committed.sessions) w.committed.sessions
  unfolding satisfies_constraints sessions_hold
  sessions_are_history w w' good r =
      All-implies {P = IsStored w.committed.sessions} {Q = Lasts w'.committed.sessions}
        (λ x. session-Lasts w w' x good r) w.committed.sessions
        (All-IsStored w.committed.sessions (ground (arith, good.0)))
