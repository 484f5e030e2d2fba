-- ===== src/Tests/Deleted.antt =====
-- Ann deletes her account, and comes back with her access token.
use async_pulse.Prelude.{◌≡◌, refl, false, sort_by, insert_by}
use async_pulse.Python.Result.{ok, is_ok}
use async_pulse.Db.Tables.{
  users_hold, user_fits, sessions_hold, session_holds, session_fits, satisfies_constraints,
}
use async_pulse.Db.World.{World, next_request}
use async_pulse.Db.Act.{basic_actions}
use async_pulse.Env.Cached.{delete}
use async_pulse.Users.Entities.{deactivate}
use async_pulse.Users.Repository.{
  to_entity, get_by_id, find_live, update, save, is_forbidden, set_attrs,
}
use async_pulse.Users.Service.{get_user, deactivate_now, delete_user}
use async_pulse.Auth.Gate.{get_current_user}
use async_pulse.Auth.Refused.Deletion.{deletion_takes_effect}
use async_pulse.Auth.Repository.{
  get_active_sessions_for_user, revoke_all_sessions, to_session_entity,
}
use async_pulse.Auth.Revoker.{purge, revoke_user_sessions, build_session_revoker}
use async_pulse.Tests.Accounts.{env-Forgets, ann_claims}
use async_pulse.Tests.Sample.{env, access_payload, home}

abbrev after : World (Unit {0})
after = (delete_user env (build_session_revoker env) "u1" home).1

ann_is_deleted : delete_user env (build_session_revoker env) "u1" home ≡ (ok tt, after)
unfolding delete_user build_session_revoker revoke_user_sessions purge revoke_all_sessions
    get_active_sessions_for_user to_session_entity get_user get_by_id find_live to_entity
    deactivate_now deactivate update save is_forbidden set_attrs delete satisfies_constraints
    users_hold user_fits sessions_hold session_holds session_fits sort_by insert_by basic_actions
ann_is_deleted = refl

deletion_takes_effect_example : is_ok (get_current_user env "access" (next_request after)).0 ≡ false
deletion_takes_effect_example =
    deletion_takes_effect env "u1" "access" "s1" home after access_payload env-Forgets tt
      ann_is_deleted refl ann_claims
