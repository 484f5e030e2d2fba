-- ===== src/Auth/Gate/Keeps.antt =====
-- `get_current_user` and the database.
use async_pulse.Prelude.{String, Option, none, some, [], ◌∷◌, if◌then◌else◌}
use async_pulse.Python.Obj.{Obj, non_empty}
use async_pulse.Db.Act.{lift}
use async_pulse.Db.Act.Tx.{
  Rel, Tx, Tx-bind, Tx-pure, Tx-raise, Tx-lift, Tx-or_raise, Tx-require, Tx-query, Tx-now,
  Tx-reraise,
}
use async_pulse.Db.Act.Tx.Weaken.{Tx-weaken}
use async_pulse.Env.{Env}
use async_pulse.Env.Cached.{Tx-get_json, Tx-set_json}
use async_pulse.Shared.Security.{decode_token}
use async_pulse.Users.Repository.Effects.{Tx-get_by_id}
use async_pulse.Users.Service.{get_user_by_id}
use async_pulse.Auth.Entities.{SessionValidation, UserSession}
use async_pulse.Auth.Repository.{get_session_by_id}
use async_pulse.Auth.Gate.{
  cached_user, warm_session, session_from_db, session_from_cache, find_session, check_session,
  user_from_db, find_user, get_current_user,
}

module _ {C : Type 0} (env : Env C) {P : Rel} where
  Tx-warm_session :
      (session_id : String) (o : Option UserSession)
      → Tx P (warm_session env session_id o) (λ _. P) P
  unfolding warm_session
  Tx-warm_session session_id none = Tx-pure _ (λ c t p. p)
  Tx-warm_session session_id (some s) =
      Tx-bind (Tx-set_json env.cache _ _ _ (λ c t p. p)) λ _. Tx-pure _ (λ c t p. p)

  Tx-session_from_db : (session_id : String) → Tx P (session_from_db env session_id) (λ _. P) P
  unfolding session_from_db get_session_by_id
  Tx-session_from_db session_id =
      Tx-bind
        (Tx-bind (Tx-weaken (λ _ c t h. h.0) (Tx-query _))
          λ rows. Tx-bind (Tx-lift _ (λ a c t e p. p) (λ c t p. p)) λ model. Tx-pure _ (λ c t p. p))
        λ full. Tx-warm_session session_id full

  Tx-found_session :
      (session_id : String) (cached : Option Obj)
      → Tx P
          (elim cached [
            | none ↦ session_from_db env session_id
            | some o ↦
                if non_empty (some o)
                then session_from_cache env o
                else session_from_db env session_id
          ])
          (λ _. P)
          P
  unfolding session_from_cache
  Tx-found_session session_id none = Tx-session_from_db session_id
  Tx-found_session session_id (some []) = Tx-session_from_db session_id
  Tx-found_session session_id (some (e ∷ o)) =
      Tx-bind (Tx-lift _ (λ a c t e p. p) (λ c t p. p)) λ s. Tx-pure _ (λ c t p. p)

  Tx-check_session :
      (user_id : String) (o : Option SessionValidation)
      → Tx P (check_session env user_id o) (λ _. P) P
  unfolding check_session
  Tx-check_session user_id none = Tx-raise _ (λ c t p. p)
  Tx-check_session user_id (some s) = Tx-bind Tx-now λ at.
      Tx-bind (Tx-weaken (λ _ c t h. h.0) (Tx-require _ _ (λ c t p. p)))
        λ _. Tx-weaken (λ _ c t h. h.0) (Tx-require _ _ (λ c t p. p))

  Tx-user_from_db : (user_id : String) → Tx P (user_from_db env user_id) (λ _. P) P
  unfolding user_from_db get_user_by_id
  Tx-user_from_db user_id =
      Tx-bind (Tx-weaken (λ _ c t h. h.0) (Tx-get_by_id (λ c t p. p) user_id)) λ found.
        Tx-bind (Tx-or_raise _ found (λ u c t e p. p) (λ c t p. p))
          λ u. Tx-bind (Tx-set_json env.cache _ _ _ (λ c t p. p)) λ _. Tx-pure _ (λ c t p. p)

  Tx-found_user :
      (user_id : String) (cached : Option Obj)
      → Tx P
          (elim cached [
            | none ↦ user_from_db env user_id
            | some o ↦ if non_empty (some o) then lift (cached_user o) else user_from_db env user_id
          ])
          (λ _. P)
          P
  Tx-found_user user_id none = Tx-user_from_db user_id
  Tx-found_user user_id (some []) = Tx-user_from_db user_id
  Tx-found_user user_id (some (e ∷ o)) = Tx-lift _ (λ a c t e p. p) (λ c t p. p)

  -- Any relation between the committed tables and the request's own passes through the gate.
  pub Tx-get_current_user : (token : String) → Tx P (get_current_user env token) (λ _. P) P
  unfolding get_current_user find_session find_user decode_token
  Tx-get_current_user token =
      Tx-bind (Tx-reraise _ _ (Tx-bind Tx-now λ t. Tx-or_raise _ _ (λ a c t e p. p) (λ c t p. p)))
        λ payload.
          Tx-bind {Q = λ _. P} (Tx-lift _ (λ a c t e p. p) (λ c t p. p)) λ (user_id, session_id).
            Tx-bind
              (Tx-bind (Tx-get_json env.cache _ (λ c t p. p))
                λ cached. Tx-found_session session_id cached)
              λ session. Tx-bind (Tx-check_session user_id session) λ _.
                Tx-bind
                  (Tx-bind (Tx-get_json env.cache _ (λ c t p. p))
                    λ cached. Tx-found_user user_id cached)
                  λ u. Tx-lift _ (λ a c t e p. p) (λ c t p. p)
