-- ===== src/Auth/Chain/Refresh.antt =====
-- `AuthService.refresh_token` keeps the chains.
use async_pulse.Prelude.{
  String, ◌≡◌, refl, ap, subst, leb, ◌-◌, ◌*◌, false, Option, none, some, [], ◌∷◌, All-selected,
  inl, inr, if◌then◌else◌,
}
use async_pulse.Python.DateTime.{DateTime, micros, as_utc}
use async_pulse.Python.Obj.{Obj, non_empty}
use async_pulse.Db.Tables.{Tables, has}
use async_pulse.Db.Act.{Act, raise, lift}
use async_pulse.Db.Act.Tx.{
  Tx, Tx-bind, Tx-pure, Tx-raise, Tx-now, Tx-uuid4, Tx-commit, Tx-lift, Tx-or_raise, Tx-require,
  Tx-if, Tx-reraise,
}
use async_pulse.Db.Act.Tx.Weaken.{Tx-given, Tx-from, Tx-weaken}
use async_pulse.Env.{Env}
use async_pulse.Env.Cached.{Tx-suppress_delete, Tx-suppress_set_json, Tx-suppress_get_json}
use async_pulse.Shared.Security.{decode_token}
use async_pulse.Users.Repository.Effects.{Tx-get_by_id}
use async_pulse.Users.Service.{get_user_by_id}
use async_pulse.Auth.Models.{SessionModel}
use async_pulse.Auth.Entities.{UserSession}
use async_pulse.Auth.Repository.{has_id, to_session_entity, to_session_model}
use async_pulse.Auth.Rows.{IsStored}
use async_pulse.Auth.Schemas.{TokenPair, TokenRefreshRequest}
use async_pulse.Auth.Limit.Login.{Tx-create_access_token, Tx-create_refresh_token}
use async_pulse.Auth.Chain.{links, IsChained, IsSpent}
use async_pulse.Auth.Chain.Invariant.{SessionInvariant, Retires}
use async_pulse.Auth.Chain.Writes.{
  Good, IsReady, retired-IsReady, Tx-update_session, Tx-create_next,
}
use async_pulse.Auth.Chain.Requests.{
  Stored, IsFoundRow, Tx-found, Tx-revoke_now, Tx-get_session_by_id, Tx-logout_all,
}
use async_pulse.Auth.Service.Sessions.{invalid_token, start_session}
use async_pulse.Auth.Service.Refresh.{
  grace_window_ms, cached_pair, replay, breach, reuse, rotate, renew, refresh_token,
}

-- A row that is not revoked has no successor yet.
unlinked :
    (x : SessionModel) (t : Tables)
    → IsChained t.sessions
    → IsStored t.sessions x
    → x.revoked_at ≡ none
    → has (links t.sessions) x.id ≡ false
unlinked x t (d, spent) h live =
    elim (All-selected (IsSpent (links t.sessions)) (has_id x.id) t.sessions x spent h) [
      | inl n ↦ n
      | inr r ↦ absurd (r live)
    ]

follows :
    (old : UserSession) (x : SessionModel)
    → Retires (to_session_model old) x
    → some old.id ≡ some x.id
unfolding to_session_model
follows old x r = ap some r.id

module _ ⦃inv : SessionInvariant⦄ {C : Type 0} (env : Env C) where
  Tx-replayed :
      (o : Option Obj)
      → Tx {C = C} {A = TokenPair} Good
          (elim o [
            | none ↦ raise (invalid_token "Concurrent refresh — please retry")
            | some o ↦
                if non_empty (some o)
                then lift (cached_pair o)
                else raise (invalid_token "Concurrent refresh — please retry")
          ])
          (λ _. Good)
          Good
  Tx-replayed none = Tx-raise _ (λ c t p. p)
  Tx-replayed (some []) = Tx-raise _ (λ c t p. p)
  Tx-replayed (some (e ∷ o)) = Tx-lift _ (λ a c t e p. p) (λ c t p. p)

  Tx-reuse :
      (session_id user_id : String) (revoked_at : DateTime)
      → Tx Good (reuse env session_id user_id revoked_at) (λ _. Good) Good
  unfolding reuse replay breach
  Tx-reuse session_id user_id revoked_at = Tx-bind Tx-now λ at.
      Tx-if (leb (micros at - micros (as_utc revoked_at)) (grace_window_ms * 1_000))
        (replay env session_id) (breach env user_id)
        (λ _. Tx-bind (Tx-suppress_get_json env.cache _) λ cached. Tx-replayed cached)
        (λ _. Tx-bind (Tx-logout_all env user_id) λ _. Tx-raise _ (λ c t p. p))

  Tx-rotate :
      (session_id user_id : String) (ip : Option String) (x : SessionModel)
      → x.revoked_at ≡ none
      → Tx
          (Stored (λ t. Unit {0}) x)
          (rotate env session_id user_id ip (to_session_entity x))
          (λ _. Good)
          Good
  unfolding rotate start_session to_session_model
  Tx-rotate session_id user_id ip x live = Tx-bind (Tx-revoke_now x) λ old. Tx-given λ r.
      Tx-bind
        (Tx-from {P' = Stored (λ t. has (links t.sessions) x.id ≡ false) x}
          (λ c t (g, h, u). (g, h, unlinked x t g.1.1.0 h live))
          (Tx-update_session {R' = IsReady x.id} old x r
            (λ t h n. retired-IsReady (to_session_model old) x t r h n)))
        λ stored. Tx-bind (Tx-suppress_delete env.cache _) λ _. Tx-bind Tx-now λ at.
          Tx-bind Tx-uuid4 λ new_session_id.
            Tx-bind (Tx-create_access_token env user_id _) λ access.
              Tx-bind (Tx-create_refresh_token env user_id new_session_id _) λ refresh.
                Tx-bind
                  {Q = λ new c t.
                    (Good c t × IsReady x.id t)
                    × ((to_session_model new).previous_session_id ≡ some x.id)}
                  (Tx-bind Tx-now λ created. Tx-pure _ (λ c t p. (p, follows old x r)))
                  λ new. Tx-given λ next. Tx-bind (Tx-create_next new x.id next) λ made.
                    Tx-bind {Q = λ _. Good} (Tx-commit (λ c t p. (p.1, p.1))) λ _.
                      Tx-bind (Tx-suppress_set_json env.cache _ _ _) λ _.
                        Tx-bind (Tx-suppress_set_json env.cache _ _ _) λ _. Tx-pure _ (λ c t p. p)

  Tx-renew :
      (session_id user_id : String) (ip : Option String) (x : SessionModel)
      → x.revoked_at ≡ none
      → Tx
          (Stored (λ t. Unit {0}) x)
          (renew env session_id user_id ip (to_session_entity x))
          (λ _. Good)
          Good
  unfolding renew get_user_by_id
  Tx-renew session_id user_id ip x live = Tx-bind Tx-now λ at.
      Tx-bind (Tx-weaken (λ _ c t h. h.0) (Tx-require _ _ (λ c t p. p.0))) λ _.
        Tx-bind (Tx-weaken (λ _ c t h. h.0) (Tx-get_by_id (λ c t p. p.0) user_id)) λ found.
          Tx-bind (Tx-weaken (λ _ c t h. h.0) (Tx-require _ _ (λ c t p. p.0)))
            λ _. Tx-rotate session_id user_id ip x live

  -- By whether the row that was found is revoked.
  abbrev by_row : String → String → Option String → UserSession → Act C TokenPair
  by_row session_id user_id ip s = elim s.revoked_at [
    | some revoked_at ↦ reuse env session_id user_id revoked_at
    | none ↦ renew env session_id user_id ip s
  ]

  Tx-presented :
      (session_id user_id : String) (ip : Option String) (x : SessionModel)
      → Tx
          (Stored (λ t. Unit {0}) x)
          (by_row session_id user_id ip (to_session_entity x))
          (λ _. Good)
          Good
  unfolding to_session_entity
  Tx-presented session_id user_id ip x = by_time x.revoked_at refl
    where
      by_time :
          (o : Option DateTime)
          → x.revoked_at ≡ o
          → Tx
              (Stored (λ t. Unit {0}) x)
              (elim o [
                | some revoked_at ↦ reuse env session_id user_id revoked_at
                | none ↦ renew env session_id user_id ip (to_session_entity x)
              ])
              (λ _. Good)
              Good
      by_time none live = Tx-renew session_id user_id ip x live
      by_time (some at) e = Tx-from (λ c t p. p.0) (Tx-reuse session_id user_id at)

  pub Tx-refresh_token :
      (request : TokenRefreshRequest) (ip : Option String)
      → Tx Good (refresh_token env request ip) (λ _. Good) Good
  unfolding refresh_token decode_token
  Tx-refresh_token request ip =
      Tx-bind (Tx-reraise _ _ (Tx-bind Tx-now λ t. Tx-or_raise _ _ (λ a c t e p. p) (λ c t p. p)))
        λ payload.
          Tx-bind {Q = λ _. Good} (Tx-lift _ (λ a c t e p. p) (λ c t p. p)) λ (session_id, user_id).
            Tx-bind (Tx-get_session_by_id session_id) λ found.
              Tx-bind {Q = λ s c t. Good c t × IsFoundRow session_id (some s) t}
                (Tx-or_raise _ found
                  (λ s c t e p. (p.0, subst (λ o. IsFoundRow session_id o t) e p.1)) (λ c t p. p.0))
                λ s.
                  Tx-found (by_row session_id user_id ip)
                    (λ x. Tx-presented session_id user_id ip x) session_id s
