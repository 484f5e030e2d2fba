-- ===== src/Auth/Limit/Login.antt =====
-- A login and the number of active sessions that it leaves.
use async_pulse.Prelude.{
  ℕ, suc, ◌≤◌, String, ◌≡◌, ◌≢◌, refl, ◌⊎◌, inl, inr, Bool, true, Option, none, some, List, [], ◌∷◌,
  ◌++◌, map, length, select, arith,
}
use async_pulse.Python.Result.{ok}
use async_pulse.Python.DateTime.{DateTime, aware}
use async_pulse.Db.Tables.{Tables, satisfies_constraints}
use async_pulse.Db.World.{World, reading}
use async_pulse.Db.Act.{basic_actions, ◌>>=◌}
use async_pulse.Db.Act.Tx.{
  Rel, Post, Tx, Tx-bind, Tx-pure, Tx-now, Tx-write, Tx-flush, Tx-commit, Tx-uuid4, Tx-lift,
}
use async_pulse.Db.Act.Tx.Weaken.{Tx-weaken_error}
use async_pulse.Env.{Env}
use async_pulse.Env.Cached.{Tx-suppress_set_json}
use async_pulse.Shared.Security.{
  verify_password, create_token, create_access_token, create_refresh_token,
}
use async_pulse.Users.Entities.{User, suspended, banned}
use async_pulse.Users.Models.{UserModel}
use async_pulse.Users.Repository.{to_entity, find_live, get_by_email}
use async_pulse.Users.Service.{get_user_by_email}
use async_pulse.Auth.Credentials.{accounts}
use async_pulse.Auth.Limit.{is_active, Pending, listed, Tx-enforce_limit}
use async_pulse.Auth.Models.{SessionModel}
use async_pulse.Auth.Opening.{active_rows}
use async_pulse.Auth.Repository.{
  to_session_entity, to_session_model, create_session, get_active_sessions_for_user,
}
use async_pulse.Auth.Service.Sessions.{start_session}
use async_pulse.Auth.Service.Login.{
  check_credentials, check_login_status, enforce_limit, open_session, authenticate,
}

-- At most five rows of the user are active at a time.
abbrev pub IsWithinLimit : String → DateTime → Tables → Type 0
IsWithinLimit user_id at t = length (active_rows user_id at t) ≤ 5

count-append :
    (p : SessionModel → Bool) (ss : List SessionModel) (m : SessionModel)
    → length (select p (ss ++ m ∷ [])) ≤ suc (length (select p ss))
count-append p [] m = ground arith
count-append p (s ∷ ss) m = ground (arith, count-append p ss m)

module _ {C : Type 0} {P E : Rel} (env : Env C) where
  pub Tx-create_access_token :
      (subject : String) (session_id : Option String)
      → Tx P (create_access_token env subject session_id) (λ _. P) E
  unfolding create_access_token create_token
  Tx-create_access_token subject session_id = Tx-bind Tx-now λ t. Tx-pure _ (λ c t p. p)

  pub Tx-create_refresh_token :
      (subject session_id : String) (expires_in : Option ℕ)
      → Tx P (create_refresh_token env subject session_id expires_in) (λ _. P) E
  unfolding create_refresh_token create_token
  Tx-create_refresh_token subject session_id expires_in = Tx-bind Tx-now λ t. Tx-pure _ (λ c t p. p)

module _ {C : Type 0} (env : Env C) (user_id : String) (at : DateTime) (c₀ : Tables) where
  abbrev Outcome : Rel
  Outcome c t = (c ≡ c₀) ⊎ IsWithinLimit user_id at c

  Tx-open_session :
      (u : User) (device ip : Option String)
      → Tx
          (Pending user_id at c₀ [])
          (open_session env u device ip)
          (λ _ c t. IsWithinLimit user_id at c)
          Outcome
  unfolding open_session start_session create_session
  Tx-open_session u device ip = Tx-bind Tx-uuid4 λ session_id. Tx-bind Tx-now λ now.
      Tx-bind (Tx-create_access_token env u.id (some session_id)) λ access.
        Tx-bind (Tx-create_refresh_token env u.id session_id none) λ refresh.
          Tx-bind {Q = λ _. Pending user_id at c₀ []}
            (Tx-bind Tx-now λ created. Tx-pure _ (λ c t p. p))
            λ session.
              Tx-bind {Q = λ _ c t. IsWithinLimit user_id at t × (c ≡ c₀)}
                (Tx-bind {Q = λ _ c t. IsWithinLimit user_id at t × (c ≡ c₀)}
                  (Tx-write _ (λ c t p. (
                    ground (
                      arith,
                      p.1,
                      count-append (is_active user_id at) t.sessions (to_session_model session),
                    ),
                    p.2,
                  )))
                  λ _. Tx-bind (Tx-flush (λ c t p. inl p.1)) λ _. Tx-pure _ (λ c t p. p))
                λ stored.
                  Tx-bind {Q = λ _ c t. IsWithinLimit user_id at c} (Tx-commit (λ c t p. p.0)) λ _.
                    Tx-bind (Tx-suppress_set_json env.cache _ _ _) λ _.
                      Tx-bind {Q = λ _ c t. IsWithinLimit user_id at c}
                        (Tx-lift _ (λ a c t e p. p) (λ c t p. inr p)) λ info. Tx-pure _ (λ c t p. p)

module _ {C : Type 0} (env : Env C) (address password : String) (device ip : Option String)
    (w : World C) (u : UserModel) (known : accounts address w.tx ≡ u ∷ [])
    (right : env.bcrypt.checkpw password u.hashed_password ≡ some true)
    (free : u.status ≢ suspended) (allowed : u.status ≢ banned) where
  may_log_in : check_login_status (to_entity u) ≡ ok (to_entity u)
  unfolding check_login_status to_entity
  may_log_in = ground (arith, free, allowed)

  authenticate-enforces :
      authenticate env address password device ip w
      ≡ (enforce_limit env (map to_session_entity (listed u.id (aware (reading w 0)) w.tx)) >>= λ _.
            open_session env (to_entity u) device ip)
          (record w { reads = suc w.reads })
  unfolding authenticate get_user_by_email get_by_email find_live to_entity check_credentials
      verify_password get_active_sessions_for_user basic_actions
  authenticate-enforces = rw (known, right, may_log_in) refl

  -- A login with the right password of one live account that is neither suspended nor banned, on rows
  -- that meet the constraints, leaves at most five sessions of the user active, counted at the time at
  -- which the login looked for them: after a success, and after an error unless nothing is committed.
  pub authenticate_limits :
      satisfies_constraints w.tx ≡ true
      → Post
          (λ _ c t. IsWithinLimit u.id (aware (reading w 0)) c)
          (λ c t. (c ≡ w.committed) ⊎ IsWithinLimit u.id (aware (reading w 0)) c)
          (authenticate env address password device ip w)
  authenticate_limits holds = rw authenticate-enforces (
      (Tx-bind
          (Tx-weaken_error (λ c t p. inl p)
            (Tx-enforce_limit env u.id (aware (reading w 0)) w.committed w.tx holds))
          (λ _.
            Tx-open_session env u.id (aware (reading w 0)) w.committed (to_entity u) device ip)).at
        (record w { reads = suc w.reads }) (refl, refl))
