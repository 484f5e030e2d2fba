-- ===== src/Auth/Refused/Unknown.antt =====
-- The gate where the cache does not hold the identity, whatever it holds of sessions: the account decides.
use async_pulse.Prelude.{
  arith, String, ◌≡◌, refl, false, Option, none, some, [], ◌∷◌, if◌then◌else◌,
}
use async_pulse.Python.Result.{Result, ok, err, is_ok}
use async_pulse.Python.Obj.{Obj, non_empty}
use async_pulse.Db.Tables.{Tables}
use async_pulse.Db.World.{World, skip, reading}
use async_pulse.Db.Act.{Act, basic_actions, lift, ◌>>=◌}
use async_pulse.Db.Act.Yields.{
  Reached, Yields, Yields-bind, Yields-pure, Yields-raise, Yields-lift, Yields-query,
  Yields-require, Yields-now,
}
use async_pulse.Env.{Env, Payload}
use async_pulse.Env.Forgets.{Forgets}
use async_pulse.Env.Forgotten.{On, Yields-get_json, Yields-set_json}
use async_pulse.Shared.Security.{decode_token}
use async_pulse.Users.Entities.{User}
use async_pulse.Users.Service.{user_key}
use async_pulse.Auth.Entities.{SessionValidation, UserSession}
use async_pulse.Auth.Repository.{get_session_by_id}
use async_pulse.Auth.Admission.Verdict.{session_key-ne-user_key}
use async_pulse.Auth.Gate.{
  access_claims, warm_session, session_from_db, session_from_cache, find_session, check_session,
  find_user, check_status, get_current_user,
}

module _ {C : Type 0} (env : Env C) {IsUp : C → Type 0} {Lacks : String → C → Type 0}
    (forgets : Forgets env.cache IsUp Lacks) (user_id : String) (t : Tables) where
  -- The cache is up and does not hold the identity, and the request sees those tables.
  abbrev pub Unknown : World C → Type 0
  Unknown = On (λ c. IsUp c × Lacks (user_key user_id) c) (λ x. x ≡ t)

  Yields-session_from_db :
      (session_id : String) → Yields Unknown (session_from_db env session_id) (λ _. Unknown)
  unfolding session_from_db get_session_by_id
  Yields-session_from_db session_id =
      Yields-bind
        (Yields-bind (Yields-query _) λ rows. Yields-bind (Yields-lift _) λ m. Yields-pure _) warmed
    where
      warmed :
          (o : Option UserSession) → Yields Unknown (warm_session env session_id o) (λ _. Unknown)
      warmed none = Yields-pure none
      warmed (some s) =
          Yields-bind
            (Yields-set_json env.cache forgets (λ x. x ≡ t) (user_key user_id) _ _ _ (omega arith)
              (session_key-ne-user_key session_id user_id))
            λ _. Yields-pure _

  Yields-find_session :
      (session_id : String) → Yields Unknown (find_session env session_id) (λ _. Unknown)
  unfolding find_session session_from_cache
  Yields-find_session session_id =
      Yields-bind (Yields-get_json env.cache forgets (λ x. x ≡ t) (user_key user_id) _) found
    where
      found :
          (cached : Option Obj)
          → Yields Unknown
              (elim cached [
                | none ↦ session_from_db env session_id
                | some o ↦
                    if non_empty (some o)
                    then session_from_cache env o
                    else session_from_db env session_id
              ])
              (λ _. Unknown)
      found none = Yields-session_from_db session_id
      found (some []) = Yields-session_from_db session_id
      found (some (e ∷ o)) = Yields-bind (Yields-lift _) λ s. Yields-pure _

  Yields-check_session :
      (o : Option SessionValidation) → Yields Unknown (check_session env user_id o) (λ _. Unknown)
  unfolding check_session
  Yields-check_session none = Yields-raise _
  Yields-check_session (some s) =
      Yields-bind (Yields-now (λ w h. h))
        λ at. Yields-bind (Yields-require _ _) λ _. Yields-require _ _

  abbrev pub identified : Act C User
  identified = find_user env user_id >>= λ u. lift (check_status u)

  none-Reached : (o : Result User × World C) → is_ok o.0 ≡ false → Reached (λ u w. ⊥) o
  none-Reached (ok u, w) h = cc
  none-Reached (err e, w) h = tt

  none-is_ok : (o : Result User × World C) → Reached (λ u w. ⊥) o → is_ok o.0 ≡ false
  none-is_ok (ok u, w) h = absurd h
  none-is_ok (err e, w) h = refl

  -- Where the account, read from those tables, does not pass, nobody passes.
  module _
      (refuses : (w : World C)
        → (env.cache.get_json (user_key user_id) (reading w 0) w.cache).0 ≡ ok none
        → w.tx ≡ t
        → is_ok (identified w).0 ≡ false) where
    Yields-identified : Yields Unknown identified (λ u w. ⊥)
    Yields-identified = record {
      at = λ w ((up, lacks), is).
          none-Reached (identified w) (
            refuses w (forgets.get_json-Lacks (user_key user_id) (reading w 0) w.cache up lacks)
              is);
    }

    pub gate-refuses :
        (token : String) (p : Payload) (session_id : String) (w : World C)
        → env.jwt.decode (reading w 0) token env.settings.secret_key ≡ some p
        → access_claims p ≡ ok (user_id, session_id)
        → Unknown w
        → is_ok (get_current_user env token w).0 ≡ false
    unfolding get_current_user decode_token basic_actions
    gate-refuses token p session_id w decodes carries unknown =
        none-is_ok (get_current_user env token w) (
          rw (decodes, carries)
            ((Yields-bind (Yields-find_session session_id)
                λ o. Yields-bind (Yields-check_session o) λ _. Yields-identified).at
              (record w { reads = skip 1 w.reads }) unknown))
