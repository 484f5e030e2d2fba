-- ===== src/Tests/Wiring.antt =====
-- A request beside another one that is open.
use async_pulse.Prelude.{refl, some}
use async_pulse.Python.DateTime.{aware}
use async_pulse.Db.Sessions.{Database, AsyncSession, get_async_session}
use async_pulse.Users.Entities.{active, suspended}
use async_pulse.Users.Service as Users
use async_pulse.Auth.Revoker.{build_session_revoker}
use async_pulse.Auth.Service.Logout
use async_pulse.Wiring.{
  Resolved, SolvesOnce, get_unit_of_work, get_user_service, get_auth_repository, get_auth_service,
}
use async_pulse.Wiring.Calls.{change_status, delete_user, logout_all}
use async_pulse.Wiring.Transaction.{RunsInSession, services_share_session}
use async_pulse.Tests.Sample.{env, home, tables}

abbrev solve : AsyncSession → Resolved
solve s =
    let uow = get_unit_of_work s in
    let users = get_user_service s uow in
    let repository = get_auth_repository s in
    record {
      session = s;
      uow = uow;
      user_service = users;
      auth_repository = repository;
      auth_service = get_auth_service repository users uow;
    }

solve-SolvesOnce : SolvesOnce solve
solve-SolvesOnce = record {
  session = λ s. refl;
  uow = λ s. refl;
  user_service = λ s. refl;
  auth_repository = λ s. refl;
  auth_service = λ s. refl;
}

-- Session 0 has revoked Ann's session, and has not committed.
abbrev database : Database (Unit {0})
database = record {
  committed = home.committed;
  tx = λ n. tables active (some (aware 90_000_000));
  opened = 1;
  cache = tt;
  clock = home.clock;
  reads = 0;
  uuid = home.uuid;
  drawn = 0;
}

services_share_session_example :
    RunsInSession
      (get_async_session (λ s. change_status env (solve s).user_service "u1" suspended) database)
      (Users.change_status env (build_session_revoker env) "u1" suspended)
      database
    × RunsInSession
        (get_async_session (λ s. delete_user env (solve s).user_service "u1") database)
        (Users.delete_user env (build_session_revoker env) "u1")
        database
    × RunsInSession
        (get_async_session (λ s. logout_all env (solve s).auth_service "u1") database)
        (Logout.logout_all env "u1")
        database
services_share_session_example =
    services_share_session env solve solve-SolvesOnce database "u1" suspended
