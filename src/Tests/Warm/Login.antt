-- ===== src/Tests/Warm/Login.antt =====
-- A login, and the gate in the request that follows, with a cache that is a map.
use async_pulse.Prelude.{◌*◌, ◌+◌, ◌≡◌, refl, true, inl, none, some, arith}
use async_pulse.Python.Result.{ok}
use async_pulse.Python.DateTime.{DateTime, aware, days}
use async_pulse.Db.Tables.{
  satisfies_constraints, users_hold, user_fits, sessions_hold, session_holds, session_fits,
}
use async_pulse.Db.World.{next_request}
use async_pulse.Env.{Env}
use async_pulse.Shared.Security.{claims}
use async_pulse.Users.Entities.{active, user, role_value}
use async_pulse.Users.Repository.{to_entity}
use async_pulse.Auth.Entities.{from_session}
use async_pulse.Auth.Entities.Laws.{DatesReadBack}
use async_pulse.Auth.Models.{SessionModel}
use async_pulse.Auth.Repository.{to_session_entity}
use async_pulse.Auth.Schemas.{token_pair}
use async_pulse.Auth.Gate.{get_current_user}
use async_pulse.Auth.Admission.Stale.{remembered}
use async_pulse.Auth.Admission.Verdict.{IsShown}
use async_pulse.Auth.Admission.Coherent.{known}
use async_pulse.Auth.Opening.{opened, with_session, login_pair}
use async_pulse.Auth.Opening.Admits.{Decodes, login_claims, login_is_admitted}
use async_pulse.Auth.Service.Login.{authenticate}
use async_pulse.Tests.Sample.{env, account, home}
use async_pulse.Auth.Entities.{to_dict}
use async_pulse.Auth.Service.Sessions.{session_key}
use async_pulse.Tests.Warm.{
  Map, HoldsOnly, map_cache-Retains, two_dates, map_env, warm_home, skip-plus, stored-DatesReadBack,
  warm-HoldsOnly, not_empty, other-ReadsBack,
}

-- The expiry of the session that a login opens.
abbrev login_expiry : DateTime
login_expiry = aware (100_000_001 + days env.settings.refresh_token_expire_days)

abbrev login_env : Env Map
login_env = map_env login_expiry

abbrev new_session : SessionModel
new_session = opened login_env (some "curl") none (warm_home login_expiry) (account active)

new-DatesReadBack :
    DatesReadBack (two_dates login_expiry) (from_session (to_session_entity new_session))
unfolding from_session to_session_entity
new-DatesReadBack = record { expires = other-ReadsBack _ refl; revoked = inl refl }

login-Decodes :
    Decodes login_env.jwt
      (login_claims login_env (warm_home login_expiry) (account active))
      login_env.settings.secret_key
unfolding claims
login-Decodes = record { decode-encode = λ now h. ground (arith, h) }

login_holds : satisfies_constraints (with_session new_session home.tx) ≡ true
unfolding satisfies_constraints users_hold user_fits sessions_hold session_holds session_fits
login_holds = refl

login_is_admitted_example :
    let w = warm_home login_expiry in
    let (r, w') = authenticate login_env "ann@example.org" "secret" (some "curl") none w in
    let v = next_request w' in
    (r
      ≡ ok (record {
        user_info = record {
          user_id = "u1";
          email = "ann@example.org";
          name = "Ann";
          username = "ann";
          role = role_value user;
        };
        token_pair = login_pair login_env w (account active);
      }))
    × (known (get_current_user login_env (login_pair login_env w (account active)).access_token v).0
        ≡ ok (remembered (to_entity (account active))))
    × (w'.cache
        ≡ (login_env.cache.set_json
            (session_key "fresh")
            (to_dict login_env.codec (from_session (to_session_entity new_session)))
            (some (login_env.settings.refresh_token_expire_days * 86_400))
            100_000_005
            w.cache).1)
unfolding token_pair claims
login_is_admitted_example =
    login_is_admitted login_env
      (HoldsOnly (IsShown (two_dates login_expiry) (with_session new_session home.tx)))
      "ann@example.org" "secret" (some "curl") none (warm_home login_expiry) (account active) "Ann"
      refl refl refl (ground arith) login_holds refl (map_cache-Retains _)
      (warm-HoldsOnly login_expiry _ refl)
      (stored-DatesReadBack login_expiry, (new-DatesReadBack, tt)) (ground arith) login-Decodes
      not_empty.0 not_empty.1 (ground arith) (λ k few. rw (skip-plus k _) (omega (arith, few)))
