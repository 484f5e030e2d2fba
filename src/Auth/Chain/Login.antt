-- ===== src/Auth/Chain/Login.antt =====
-- `AuthService.authenticate` keeps the chains.
use async_pulse.Prelude.{
  ◌-◌, String, ◌≡◌, refl, sym, subst, true, false, Option, none, some, List, [], ◌∷◌, map, take,
  length, leb, arith, All, All-take, take-map, eq_iff, ◌∙◌,
}
use async_pulse.Db.Tables.{Tables, has, distinct, merge_row}
use async_pulse.Db.Act.Tx.{
  Tx, Tx-bind, Tx-pure, Tx-raise, Tx-now, Tx-uuid4, Tx-commit, Tx-query, Tx-lift, Tx-or_raise,
  Tx-require, Tx-if,
}
use async_pulse.Db.Act.Tx.Weaken.{Tx-given, Tx-exists, Tx-from, Tx-weaken}
use async_pulse.Env.{Env}
use async_pulse.Env.Cached.{Tx-suppress_delete, Tx-suppress_set_json}
use async_pulse.Shared.Security.{verify_password}
use async_pulse.Users.Entities.{User}
use async_pulse.Users.Repository.{get_by_email}
use async_pulse.Users.Repository.Effects.{Tx-find_live}
use async_pulse.Users.Service.{get_user_by_email}
use async_pulse.Auth.Models.{SessionModel}
use async_pulse.Auth.Entities.{UserSession}
use async_pulse.Auth.Limit.{other-merge, listed-IsStored, listed-distinct}
use async_pulse.Auth.Limit.Login.{Tx-create_access_token, Tx-create_refresh_token}
use async_pulse.Auth.Repository.{to_session_entity, to_session_model, get_active_sessions_for_user}
use async_pulse.Auth.Rows.{ids, IsStored, distinct-take}
use async_pulse.Auth.Chain.Invariant.{SessionInvariant}
use async_pulse.Auth.Chain.Writes.{Good, Tx-update_session, Tx-create_first}
use async_pulse.Auth.Chain.Requests.{Tx-revoke_now}
use async_pulse.Auth.Service.Sessions.{start_session}
use async_pulse.Auth.Service.Login.{
  check_credentials, check_login_status, revoke_oldest, enforce_limit, open_session, authenticate,
}

-- Overwriting the row of one key leaves the rows of the others.
All-IsStored-merge_row :
    (m : SessionModel) (ss ys : List SessionModel)
    → All (IsStored ss) ys
    → has (ids ys) m.id ≡ false
    → All (IsStored (merge_row m ss)) ys
All-IsStored-merge_row m ss [] h n = tt
All-IsStored-merge_row m ss (y ∷ ys) (h, hs) n = (
  other-merge m y.id ss (ground (arith, n, eq_iff m.id y.id, eq_iff y.id m.id)) ∙ h,
  All-IsStored-merge_row m ss ys hs (ground arith),
)

-- A list of entities that are rows with different keys.
abbrev AreStored : List UserSession → Tables → Type 0
AreStored entities t =
    (l : List SessionModel) × (entities ≡ map to_session_entity l)
    × (distinct (ids l) ≡ true)
    × All (IsStored t.sessions) l

module _ ⦃inv : SessionInvariant⦄ {C : Type 0} where
  Tx-active :
      (user_id : String)
      → Tx {C = C} Good
          (get_active_sessions_for_user user_id)
          (λ active c t. Good c t × AreStored active t)
          Good
  unfolding get_active_sessions_for_user
  Tx-active user_id = Tx-bind Tx-now λ at. Tx-bind (Tx-query _) λ models. Tx-pure _ (λ c t (g, e). (
    g,
    (
      models,
      refl,
      subst (λ l. distinct (ids l) ≡ true) (sym e) (listed-distinct user_id at t g.1.0),
      subst (All (IsStored t.sessions)) (sym e) (listed-IsStored user_id at t g.1.0),
    ),
  ))

module _ ⦃inv : SessionInvariant⦄ {C : Type 0} (env : Env C) where
  Tx-revoke_oldest :
      (l : List SessionModel)
      → distinct (ids l) ≡ true
      → Tx
          (λ c t. Good c t × All (IsStored t.sessions) l)
          (revoke_oldest env (map to_session_entity l))
          (λ _. Good)
          Good
  unfolding revoke_oldest
  Tx-revoke_oldest [] d = Tx-pure _ (λ c t p. p.0)
  Tx-revoke_oldest (x ∷ l) d = Tx-bind (Tx-revoke_now x) λ old. Tx-given λ r.
      Tx-bind
        (Tx-from (λ c t (g, (h, hs)). (g, h, hs))
          (Tx-update_session {R = λ t. All (IsStored t.sessions) l}
            {R' = λ t. All (IsStored t.sessions) l} old x r
            (λ t h hs.
              All-IsStored-merge_row (to_session_model old) t.sessions l hs
                (ground (arith, d, r.id)))))
        λ stored.
          Tx-bind (Tx-suppress_delete env.cache _) λ _. Tx-revoke_oldest l (ground (arith, d))

  Tx-enforce :
      (l : List SessionModel)
      → distinct (ids l) ≡ true
      → Tx
          (λ c t. Good c t × All (IsStored t.sessions) l)
          (enforce_limit env (map to_session_entity l))
          (λ _. Good)
          Good
  unfolding enforce_limit
  Tx-enforce l d =
      Tx-if (leb 5 (length (map to_session_entity l))) _ _
        (λ _. rw (take-map to_session_entity (length (map to_session_entity l) - 4) l) (
          Tx-from (λ c t (g, h). (g, All-take (IsStored t.sessions) _ l h))
            (Tx-revoke_oldest (take (length (map to_session_entity l) - 4) l)
              (distinct-take _ l d))))
        (λ _. Tx-pure _ (λ c t p. p.0))

  Tx-enforce_active :
      (active : List UserSession)
      → Tx (λ c t. Good c t × AreStored active t) (enforce_limit env active) (λ _. Good) Good
  Tx-enforce_active active =
      Tx-from
        {P' = λ c t.
          (l : List SessionModel) × ((Good c t × All (IsStored t.sessions) l)
            × ((active ≡ map to_session_entity l) × (distinct (ids l) ≡ true)))}
        (λ c t (g, (l, e, d, h)). (l, ((g, h), (e, d))))
        (Tx-exists λ l. Tx-given λ (e, d). rw (e) (Tx-enforce l d))

  Tx-open_session :
      (u : User) (device ip : Option String)
      → Tx Good (open_session env u device ip) (λ _. Good) Good
  unfolding open_session start_session to_session_model
  Tx-open_session u device ip = Tx-bind Tx-uuid4 λ session_id. Tx-bind Tx-now λ now.
      Tx-bind (Tx-create_access_token env u.id (some session_id)) λ access.
        Tx-bind (Tx-create_refresh_token env u.id session_id none) λ refresh.
          Tx-bind {Q = λ s c t. Good c t × ((to_session_model s).previous_session_id ≡ none)}
            (Tx-bind Tx-now λ created. Tx-pure _ (λ c t p. (p, refl)))
            λ s. Tx-given λ first. Tx-bind (Tx-create_first s first) λ stored.
              Tx-bind {Q = λ _. Good} (Tx-commit (λ c t p. (p.1, p.1))) λ _.
                Tx-bind (Tx-suppress_set_json env.cache _ _ _) λ _.
                  Tx-bind {Q = λ _. Good} (Tx-lift _ (λ a c t e p. p) (λ c t p. p))
                    λ info. Tx-pure _ (λ c t p. p)

  Tx-check_credentials :
      (password : String) (o : Option User)
      → Tx Good (check_credentials env password o) (λ _. Good) Good
  unfolding check_credentials verify_password
  Tx-check_credentials password none = Tx-raise _ (λ c t p. p)
  Tx-check_credentials password (some u) =
      Tx-bind {Q = λ _. Good} (Tx-or_raise _ _ (λ a c t e p. p) (λ c t p. p)) λ valid.
        Tx-bind (Tx-weaken (λ _ c t h. h.0) (Tx-require valid _ (λ c t p. p)))
          λ _. Tx-pure _ (λ c t p. p)

  pub Tx-authenticate :
      (address password : String) (device ip : Option String)
      → Tx Good (authenticate env address password device ip) (λ _. Good) Good
  unfolding authenticate get_user_by_email get_by_email
  Tx-authenticate address password device ip =
      Tx-bind (Tx-weaken (λ _ c t h. h.0) (Tx-find_live (λ c t p. p) _)) λ found.
        Tx-bind (Tx-check_credentials password found) λ known.
          Tx-bind {Q = λ _. Good} (Tx-lift (check_login_status known) (λ a c t e p. p) (λ c t p. p))
            λ u.
              Tx-bind (Tx-active u.id)
                λ active. Tx-bind (Tx-enforce_active active) λ _. Tx-open_session u device ip
