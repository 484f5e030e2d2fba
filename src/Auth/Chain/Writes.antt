-- ===== src/Auth/Chain/Writes.antt =====
-- The writes of src/modules/auth/repository.py as steps that keep the chains.
use async_pulse.Prelude.{
  String, ◌≡◌, sym, true, false, none, some, List, [], ◌∷◌, select, All, arith,
}
use async_pulse.Db.Tables.{Tables, has, merge_row, satisfies_constraints}
use async_pulse.Db.Act.{flush}
use async_pulse.Db.Act.Tx.{Rel, Tx, Tx-bind, Tx-pure, Tx-now, Tx-write}
use async_pulse.Db.Act.Tx.Flush.{Tx-flush_checked}
use async_pulse.Auth.Models.{SessionModel}
use async_pulse.Auth.Entities.{UserSession}
use async_pulse.Auth.Repository.{
  has_id, is_unrevoked_row, to_session_model, create_session, update_session, revoke_all_sessions,
}
use async_pulse.Auth.Rows.{ids, IsStored}
use async_pulse.Auth.Chain.{
  links, IsChained, IsRetired, IsChained-update_where, IsChained-merge_row, links-merge_row,
  has-merge_row, merge_row-IsRetired,
}
use async_pulse.Auth.Chain.Invariant.{SessionInvariant, Retires}
use async_pulse.Auth.Chain.Adding.{IsChained-add_first, IsChained-add_next}

module _ ⦃inv : SessionInvariant⦄ where
  -- What every use case keeps of the tables.
  abbrev pub IsGood : Tables → Type 0
  IsGood t = (satisfies_constraints t ≡ true) × (IsChained t.sessions × inv.Holds t.sessions)

  abbrev pub Good : Rel
  Good c t = IsGood c × IsGood t

  -- Before the flush the constraints are not known to hold.
  abbrev pub Pending : Rel
  Pending c t =
      IsGood c × (satisfies_constraints t ≡ true → IsChained t.sessions × inv.Holds t.sessions)

-- The row of that key is the latest of its chain, and revoked.
abbrev pub IsReady : String → Tables → Type 0
IsReady k t =
    (has (links t.sessions) k ≡ false)
    × (has (ids t.sessions) k ≡ true)
    × All (IsRetired k) t.sessions

abbrev pub merged : SessionModel → Tables → Tables
merged m t = record t { sessions = merge_row m t.sessions }

module _ ⦃inv : SessionInvariant⦄ {C : Type 0} (R : Tables → Type 0) where
  Tx-flush-Pending : Tx {C = C} (λ c t. Pending c t × R t) flush (λ _ c t. Good c t × R t) Good
  Tx-flush-Pending =
      Tx-flush_checked (λ c t p h. ((p.0.0, (h, p.0.1 h)), p.1)) (λ c t p. (p.0.0, p.0.0))

stored_at :
    (m x : SessionModel) (ss : List SessionModel)
    → m.id ≡ x.id
    → IsStored ss x
    → select (has_id m.id) ss ≡ x ∷ []
stored_at m x ss e h = rw (e) h

pub retired-IsReady :
    (m x : SessionModel) (t : Tables)
    → Retires m x
    → IsStored t.sessions x
    → has (links t.sessions) x.id ≡ false
    → IsReady x.id (merged m t)
retired-IsReady m x t r h n = rw (sym r.id) (
  ground (
    arith,
    links-merge_row m x r.previous r.revoked t.sessions (stored_at m x t.sessions r.id h),
    n,
    r.id,
  ),
  has-merge_row m t.sessions,
  merge_row-IsRetired m x t.sessions r.revoked (stored_at m x t.sessions r.id h),
)

module _ ⦃inv : SessionInvariant⦄ {C : Type 0} where
  pub Tx-update_session :
      {R R' : Tables → Type 0} (s : UserSession) (x : SessionModel)
      → Retires (to_session_model s) x
      → ((t : Tables) → IsStored t.sessions x → R t → R' (merged (to_session_model s) t))
      → Tx {C = C}
          (λ c t. Good c t × IsStored t.sessions x × R t)
          (update_session s)
          (λ _ c t. Good c t × R' t)
          Good
  unfolding update_session
  Tx-update_session {R' = R'} s x r keep =
      Tx-bind {Q = λ _ c t. Pending c t × R' t}
        (Tx-write _ (λ c t (g, h, p). (
          (
            g.0,
            λ e. (
              IsChained-merge_row (to_session_model s) x r.previous r.revoked t.sessions
                  (stored_at (to_session_model s) x t.sessions r.id h) g.1.1.0,
              inv.overwrite (to_session_model s) x t.sessions r h g.1.1.1,
            ),
          ),
          keep t h p,
        )))
        λ _. Tx-bind (Tx-flush-Pending R') λ _. Tx-pure _ (λ c t p. p)

  pub Tx-create_first :
      (s : UserSession)
      → (to_session_model s).previous_session_id ≡ none
      → Tx {C = C} Good (create_session s) (λ _. Good) Good
  unfolding create_session
  Tx-create_first s first =
      Tx-bind {Q = λ _ c t. Pending c t × Unit {0}}
        (Tx-write _ (λ c t g. (
          (
            g.0,
            λ e. (
              IsChained-add_first t (to_session_model s) g.1.0 e first g.1.1.0,
              inv.add t (to_session_model s) g.1.0 e g.1.1.1,
            ),
          ),
          tt,
        )))
        λ _. Tx-bind (Tx-flush-Pending (λ t. Unit)) λ _. Tx-pure _ (λ c t p. p.0)

  pub Tx-create_next :
      (s : UserSession) (k : String)
      → (to_session_model s).previous_session_id ≡ some k
      → Tx {C = C} (λ c t. Good c t × IsReady k t) (create_session s) (λ _. Good) Good
  unfolding create_session
  Tx-create_next s k next =
      Tx-bind {Q = λ _ c t. Pending c t × Unit {0}}
        (Tx-write _ (λ c t (g, (n, i, r)). (
          (
            g.0,
            λ e. (
              IsChained-add_next t (to_session_model s) k g.1.0 e next n i r g.1.1.0,
              inv.add t (to_session_model s) g.1.0 e g.1.1.1,
            ),
          ),
          tt,
        )))
        λ _. Tx-bind (Tx-flush-Pending (λ t. Unit)) λ _. Tx-pure _ (λ c t p. p.0)

  pub Tx-revoke_all :
      (user_id : String) → Tx {C = C} Good (revoke_all_sessions user_id) (λ _. Good) Good
  unfolding revoke_all_sessions
  Tx-revoke_all user_id = Tx-bind Tx-now λ at.
      Tx-bind {Q = λ _ c t. Pending c t × Unit {0}}
        (Tx-write _ (λ c t g. (
          (
            g.0,
            λ e. (
              IsChained-update_where (is_unrevoked_row user_id) at t.sessions g.1.1.0,
              inv.revoke (is_unrevoked_row user_id) at t.sessions g.1.1.1,
            ),
          ),
          tt,
        )))
        λ _. Tx-flush_checked (λ c t p h. (p.0.0, (h, p.0.1 h))) (λ c t p. (p.0.0, p.0.0))
