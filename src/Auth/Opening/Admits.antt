-- ===== src/Auth/Opening/Admits.antt =====
-- A login, and the gate in the request that follows: src/modules/auth/service.py with
-- dependencies/authentication.py.
use async_pulse.Prelude.{
  ◌*◌, ℕ, ◌+◌, ◌≤◌, ◌<◌, All, All-select, subst, String, str_eq, ◌≡◌, ◌≢◌, refl, true, false, ◌&&◌,
  Option, some, List, [], ◌∷◌, map, length, select, arith, eq_iff,
}
use async_pulse.Python.Result.{ok}
use async_pulse.Python.DateTime.{aware, days, minutes}
use async_pulse.Db.Tables.{has, distinct, user_ids, users_hold, satisfies_constraints}
use async_pulse.Db.World.{World, skip, reading, next_request}
use async_pulse.Env.{Env, Jwt, Payload, stamped}
use async_pulse.Shared.Security.{claims}
use async_pulse.Users.Entities.{active, role_value}
use async_pulse.Users.Models.{UserModel}
use async_pulse.Users.Repository.{has_user_id, is_live, to_entity}
use async_pulse.Auth.Repository.{to_session_entity, has_id}
use async_pulse.Auth.Rows.{select-added}
use async_pulse.Auth.Credentials.{accounts}
use async_pulse.Auth.Chain.Adding.{added-new}
use async_pulse.Auth.Gate.{access_claims, get_current_user}
use async_pulse.Auth.Schemas.{token_pair}
use async_pulse.Env.Retains.{Retains}
use async_pulse.Auth.Admission.Stale.{remembered}
use async_pulse.Auth.Admission.Verdict.{IsShown, session-IsShown}
use async_pulse.Auth.Admission.Coherent.{known as known_user, RowReadsBack}
use async_pulse.Auth.Admission.Passes.{active_session_passes}
use async_pulse.Auth.Opening.{
  active_rows, with_session, opened, login_pair, authenticate-reads, authenticate_opens,
}
use async_pulse.Auth.Entities.{from_session, to_dict}
use async_pulse.Auth.Service.Sessions.{session_key}
use async_pulse.Auth.Service.Login.{authenticate}

-- What `jwt.decode` makes of claims that `jwt.encode` signed with the same key, until they expire.
pub record Decodes (jwt : Jwt) (p : Payload) (key : String) : Type 0 where
  pub decode-encode :
      (now : ℕ) → now ≤ (stamped p).exp → jwt.decode now (jwt.encode p key) key ≡ some (stamped p)

-- The account of an address is the one of its key.
module _ (address : String) (u : UserModel) where
  no_account :
      (us : List UserModel)
      → has (map (λ x. x.id) us) u.id ≡ false
      → select (λ x. has_user_id u.id x && is_live x) us ≡ []
  no_account [] h = refl
  no_account (x ∷ us) h = ground (arith, h, eq_iff x.id u.id, no_account us)

  has-account :
      (us : List UserModel)
      → select (λ x. str_eq x.email address && is_live x) us ≡ u ∷ []
      → has (map (λ x. x.id) us) u.id ≡ true
  has-account [] h = cc
  has-account (x ∷ us) h = ground (arith, h, eq_iff x.id u.id, has-account us)

  account-row :
      (us : List UserModel)
      → distinct (map (λ x. x.id) us) ≡ true
      → select (λ x. str_eq x.email address && is_live x) us ≡ u ∷ []
      → select (λ x. has_user_id u.id x && is_live x) us ≡ u ∷ []
  account-row [] d h = cc
  account-row (x ∷ us) d h =
      ground (arith, d, h, eq_iff x.id u.id, account-row us, no_account us, has-account us)

pub access_claims-claims :
    (subject session_id : String) (expire : ℕ)
    → subject ≢ ""
    → session_id ≢ ""
    → access_claims (stamped (claims subject expire "access" (some session_id)))
      ≡ ok (subject, session_id)
unfolding access_claims claims
access_claims-claims subject session_id expire s i =
    ground (arith, s, i, eq_iff subject "", eq_iff session_id "")

-- The claims of the access token that a login issues.
abbrev pub login_claims : {C : Type 0} → Env C → World C → UserModel → Payload
login_claims env w u =
    claims u.id (reading w 2 + minutes env.settings.access_token_expire_minutes) "access"
      (some (w.uuid w.drawn))

module _ {C : Type 0} (env : Env C) (Holds : C → Type 0) (address password : String)
    (device ip : Option String) (w : World C) (u : UserModel) (name : String)
    (known : accounts address w.tx ≡ u ∷ [])
    (right : env.bcrypt.checkpw password u.hashed_password ≡ some true) (usable : u.status ≡ active)
    (room : length (active_rows u.id (aware (reading w 0)) w.tx) ≤ 4)
    (holds : satisfies_constraints (with_session (opened env device ip w u) w.tx) ≡ true)
    (named : u.name ≡ some name) where
  users_distinct : distinct (user_ids w.tx) ≡ true
  unfolding satisfies_constraints users_hold
  users_distinct = ground (arith, holds)

  session_stored :
      select (has_id (w.uuid w.drawn)) (with_session (opened env device ip w u) w.tx).sessions
      ≡ opened env device ip w u ∷ []
  session_stored =
      select-added w.tx.sessions (opened env device ip w u)
        (added-new w.tx (opened env device ip w u) holds)

  -- Who logs in is let in: a login with the right password of one live, active and named account, with
  -- at most four active sessions, where the tables with the new row meet the constraints and neither
  -- identifier is empty, returns a pair whose access token passes the gate in the next request, before
  -- the token and the session expire: the gate returns that account, up to the fields that the cache
  -- does not keep. The login has put the session into the cache, under its key and for the days that it
  -- lasts, of which there is one at least. The cache holds nothing but what those tables show when the
  -- login starts, and keeps to that; `jwt` reads back what it signed, and the dates of the sessions
  -- read back.
  pub login_is_admitted :
      Retains env.cache (IsShown env.codec (with_session (opened env device ip w u) w.tx)) Holds
      → Holds w.cache
      → All (RowReadsBack env) (with_session (opened env device ip w u) w.tx).sessions
      → 0 < env.settings.refresh_token_expire_days
      → Decodes env.jwt (login_claims env w u) env.settings.secret_key
      → u.id ≢ ""
      → w.uuid w.drawn ≢ ""
      → reading w 6 ≤ (stamped (login_claims env w u)).exp
      → ((k : ℕ)
          → k ≤ 3
          → w.clock (skip k (skip 6 w.reads))
            ≤ reading w 1 + days env.settings.refresh_token_expire_days)
      → let (r, w') = authenticate env address password device ip w in
        let v = next_request w' in
        (r
          ≡ ok (record {
            user_info = record {
              user_id = u.id;
              email = u.email;
              name = name;
              username = u.username;
              role = role_value u.role;
            };
            token_pair = login_pair env w u;
          }))
        × (known_user (get_current_user env (login_pair env w u).access_token v).0
            ≡ ok (remembered (to_entity u)))
        × (w'.cache
            ≡ (env.cache.set_json
                (session_key (w.uuid w.drawn))
                (to_dict env.codec (from_session (to_session_entity (opened env device ip w u))))
                (some (env.settings.refresh_token_expire_days * 86_400))
                (reading w 5)
                w.cache).1)
  unfolding token_pair
  login_is_admitted rets held dates lasting signed i j fresh current =
      let (r, c) =
        authenticate_opens env address password device ip w u known right (λ e. cc) (λ e. cc) room
          holds name named in
      let (k, n, z) =
        authenticate-reads env address password device ip w u known right (λ e. cc) (λ e. cc) room
          holds in
      (
        r,
        (active_session_passes env Holds (login_pair env w u).access_token
            (stamped (login_claims env w u)) u.id (w.uuid w.drawn) (opened env device ip w u)
            (next_request (authenticate env address password device ip w).1) (rw (c) rets)
            (rw (z) (
              rets.set_json-Holds _ _ _ (reading w 5) w.cache (omega (arith, lasting)) held (
                session-IsShown env.codec _ (w.uuid w.drawn) (opened env device ip w u)
                  session_stored
                  (subst (All (RowReadsBack env)) session_stored
                    (All-select (RowReadsBack env) (has_id (w.uuid w.drawn)) _ dates)).0)))
            (rw (c) dates) (signed.decode-encode _ (rw (k, n) fresh))
            (access_claims-claims u.id (w.uuid w.drawn) _ i j) (rw (c) session_stored) u refl refl
            (rw (k, n) current) (rw (c) (account-row address u w.tx.users users_distinct known))
            usable).0,
        z,
      )
