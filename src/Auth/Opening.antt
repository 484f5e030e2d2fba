-- ===== src/Auth/Opening.antt =====
-- `AuthService.authenticate` for a user with room for another session.
pub mod Admits
use async_pulse.Prelude.{
  ◌*◌, suc, ◌+◌, ◌≤◌, String, ◌≡◌, ◌≢◌, ◌∙◌, refl, true, false, Option, none, some, List, [], ◌∷◌,
  ◌++◌, map, length, leb, select, sort_by, length-map, length-sort_by, arith,
}
use async_pulse.Python.Result.{Result, ok, err, pydantic_error}
use async_pulse.Python.DateTime.{DateTime, aware, days, minutes}
use async_pulse.Db.Tables.{Tables, satisfies_constraints}
use async_pulse.Db.World.{World, skip, reading}
use async_pulse.Db.Act.{flushed, basic_actions}
use async_pulse.Env.{Env}
use async_pulse.Env.Cached.{set_json}
use async_pulse.Shared.Security.{
  claims, verify_password, create_token, create_access_token, create_refresh_token,
}
use async_pulse.Users.Entities.{suspended, banned, role_value}
use async_pulse.Users.Models.{UserModel}
use async_pulse.Users.Repository.{to_entity, find_live, get_by_email}
use async_pulse.Users.Service.{get_user_by_email}
use async_pulse.Auth.Credentials.{accounts}
use async_pulse.Auth.Entities.{to_dict, from_session}
use async_pulse.Auth.Models.{SessionModel}
use async_pulse.Auth.Repository.{
  to_session_entity, to_session_model, is_active_row, created_before, create_session,
  get_active_sessions_for_user,
}
use async_pulse.Auth.Schemas.{TokenPair, token_pair, UserInfo, user_info, LoginResponse}
use async_pulse.Auth.Service.Sessions.{session_key, start_session}
use async_pulse.Auth.Service.Login.{
  check_credentials, check_login_status, enforce_limit, open_session, authenticate,
}

-- The user's rows that are active at a time.
abbrev pub active_rows : String → DateTime → Tables → List SessionModel
active_rows user_id at t = select (is_active_row user_id at) t.sessions

abbrev pub with_session : SessionModel → Tables → Tables
with_session m t = record t { sessions = t.sessions ++ m ∷ [] }

-- The answer of a login, by what pydantic says of the user.
abbrev pub answered : Result UserInfo → TokenPair → Result LoginResponse
answered (ok info) pair = ok (record { user_info = info; token_pair = pair })
answered (err e) pair = err e

module _ {C : Type 0} (env : Env C) (device ip : Option String) (w : World C) where
  -- The row of the session that a login opens.
  abbrev pub opened : UserModel → SessionModel
  opened u = record {
    id = w.uuid w.drawn;
    user_id = u.id;
    device_info = device;
    ip_address = ip;
    created_at = aware (reading w 4);
    expires_at = aware (reading w 1 + days env.settings.refresh_token_expire_days);
    revoked_at = none;
    previous_session_id = none;
  }

module _ {C : Type 0} (env : Env C) (w : World C) where
  -- The pair that a login issues.
  abbrev pub login_pair : UserModel → TokenPair
  login_pair u =
      token_pair
        (env.jwt.encode
          (claims u.id (reading w 2 + minutes env.settings.access_token_expire_minutes) "access"
            (some (w.uuid w.drawn)))
          env.settings.secret_key)
        (env.jwt.encode
          (claims u.id (reading w 3 + days env.settings.refresh_token_expire_days) "refresh"
            (some (w.uuid w.drawn)))
          env.settings.secret_key)

module _ {C : Type 0} (env : Env C) (address password : String) (device ip : Option String)
    (w : World C) where
  length-listed :
      (u : UserModel)
      → length (
          map to_session_entity
            (sort_by created_before (active_rows u.id (aware (reading w 0)) w.tx)))
        ≡ length (active_rows u.id (aware (reading w 0)) w.tx)
  length-listed u = length-map to_session_entity _ ∙ length-sort_by created_before _

  module _ (u : UserModel) (known : accounts address w.tx ≡ u ∷ [])
      (right : env.bcrypt.checkpw password u.hashed_password ≡ some true)
      (free : u.status ≢ suspended) (allowed : u.status ≢ banned)
      (room : length (active_rows u.id (aware (reading w 0)) w.tx) ≤ 4)
      (holds : satisfies_constraints (with_session (opened env device ip w u) w.tx) ≡ true) where
    few :
        leb 5 (
          length (
            map to_session_entity
              (sort_by created_before (active_rows u.id (aware (reading w 0)) w.tx))))
        ≡ false
    few = rw (length-listed u) (ground (arith, room))

    may_log_in : check_login_status (to_entity u) ≡ ok (to_entity u)
    unfolding check_login_status to_entity
    may_log_in = ground (arith, free, allowed)

    authenticate-passes :
        authenticate env address password device ip w
        ≡ open_session env (to_entity u) device ip (record w { reads = suc w.reads })
    unfolding authenticate get_user_by_email get_by_email find_live to_entity check_credentials
        verify_password get_active_sessions_for_user enforce_limit basic_actions
    authenticate-passes = rw (known, right, may_log_in, few) refl

    stored :
        (v : World C)
        → create_session (to_session_entity (opened env device ip w u)) (record v { tx = w.tx }) ≡ (
          ok (to_session_entity (opened env device ip w u)),
          record v { tx = with_session (opened env device ip w u) w.tx },
        )
    unfolding create_session to_session_model to_session_entity basic_actions
    stored v = rw (holds, flushed) refl

    -- What remains is to answer: the row is committed before the answer is built.
    open_session-commits :
        let (r, w') = authenticate env address password device ip w in
        (r ≡ answered (user_info (to_entity u)) (login_pair env w u))
        × (w'.committed ≡ with_session (opened env device ip w u) w.tx)
    unfolding open_session create_access_token create_refresh_token create_token start_session
        to_entity to_session_entity set_json basic_actions
    open_session-commits =
        rw authenticate-passes
          (rw (stored (record w { reads = skip 5 w.reads; drawn = suc w.drawn })) (ground arith))

    -- A login reads the clock six times, and puts the session into the cache.
    pub authenticate-reads :
        let w' = (authenticate env address password device ip w).1 in
        (w'.clock ≡ w.clock)
        × (w'.reads ≡ skip 6 w.reads)
        × (w'.cache
            ≡ (env.cache.set_json
                (session_key (w.uuid w.drawn))
                (to_dict env.codec (from_session (to_session_entity (opened env device ip w u))))
                (some (env.settings.refresh_token_expire_days * 86_400))
                (reading w 5)
                w.cache).1)
    unfolding open_session create_access_token create_refresh_token create_token start_session
        to_entity to_session_entity set_json basic_actions
    authenticate-reads =
        rw authenticate-passes
          (rw (stored (record w { reads = skip 5 w.reads; drawn = suc w.drawn })) (ground arith))

    -- A login with the right password of one live account that is neither suspended nor banned, with at
    -- most four active sessions, where the tables with the new row meet the constraints: that row is
    -- added and committed, and the pair returned is signed for it.
    pub authenticate_opens :
        (name : String)
        → u.name ≡ some name
        → let (r, w') = authenticate env address password device ip w in
          (r
            ≡ ok (record {
              user_info = record {
                user_id = u.id;
                email = u.email;
                name = name;
                username = u.username;
                role = role_value u.role;
              };
              token_pair = login_pair env w u;
            }))
          × (w'.committed ≡ with_session (opened env device ip w u) w.tx)
    unfolding user_info to_entity
    authenticate_opens name named = let (r, c) = open_session-commits in (r ∙ rw named refl, c)

    -- A login with the right password of one live account that has no name and is neither suspended nor
    -- banned, with at most four active sessions, where the tables with the new row meet the constraints,
    -- is answered by a validation error, and the session is committed all the same.
    pub authenticate_without_name :
        u.name ≡ none
        → let (r, w') = authenticate env address password device ip w in
          (r ≡ err pydantic_error) × (w'.committed ≡ with_session (opened env device ip w u) w.tx)
    unfolding user_info to_entity
    authenticate_without_name unnamed =
        let (r, c) = open_session-commits in (r ∙ rw unnamed refl, c)
