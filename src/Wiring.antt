-- ===== src/Wiring.antt =====
-- The objects of a request, and the dependency functions that build them: src/db/unit_of_work.py,
-- src/modules/users/dependencies.py, src/modules/auth/dependencies/providers.py, and the constructors
-- that they call. The cache client is one object for the whole process, and is left out.
pub mod Calls
pub mod Transaction
use async_pulse.Prelude.{◌≡◌}
use async_pulse.Db.Sessions.{AsyncSession}

pub record UnitOfWork : Type 0 where
  pub session : AsyncSession

pub record UserRepository : Type 0 where
  pub session : AsyncSession

pub record AuthRepository : Type 0 where
  pub session : AsyncSession

pub record AuthSessionRevoker : Type 0 where
  pub repository : AuthRepository

pub record UserService : Type 0 where
  pub repository : UserRepository
  pub uow : UnitOfWork
  pub session_revoker : AuthSessionRevoker

pub record AuthServiceDeps : Type 0 where
  pub repository : AuthRepository
  pub user_service : UserService
  pub uow : UnitOfWork

-- `AuthService.__init__` takes the collaborators apart.
pub record AuthService : Type 0 where
  pub repository : AuthRepository
  pub users : UserService
  pub uow : UnitOfWork

unfoldable pub make_auth_service : AuthServiceDeps → AuthService
make_auth_service deps = record {
  repository = deps.repository;
  users = deps.user_service;
  uow = deps.uow;
}

unfoldable pub make_session_revoker : AsyncSession → AuthSessionRevoker
make_session_revoker session = record { repository = record { session = session } }

unfoldable pub get_unit_of_work : AsyncSession → UnitOfWork
get_unit_of_work session = record { session = session }

unfoldable pub get_user_service : AsyncSession → UnitOfWork → UserService
unfolding make_session_revoker
get_user_service session uow = record {
  repository = record { session = session };
  uow = uow;
  session_revoker = make_session_revoker session;
}

unfoldable pub get_auth_repository : AsyncSession → AuthRepository
get_auth_repository session = record { session = session }

unfoldable pub get_auth_service : AuthRepository → UserService → UnitOfWork → AuthService
unfolding make_auth_service
get_auth_service repository user_service uow =
    make_auth_service (record { repository = repository; user_service = user_service; uow = uow })

-- What FastAPI hands to a route, once the session of the request is open.
pub record Resolved : Type 0 where
  pub session : AsyncSession
  pub uow : UnitOfWork
  pub user_service : UserService
  pub auth_repository : AuthRepository
  pub auth_service : AuthService

-- FastAPI calls each dependency once in a request, with the values of its own dependencies, and hands
-- that one value to everything that depends on it.
pub record SolvesOnce (solve : AsyncSession → Resolved) : Type 0 where
  pub session : (s : AsyncSession) → (solve s).session ≡ s
  pub uow : (s : AsyncSession) → (solve s).uow ≡ get_unit_of_work (solve s).session
  pub user_service :
      (s : AsyncSession) → (solve s).user_service ≡ get_user_service (solve s).session (solve s).uow
  pub auth_repository :
      (s : AsyncSession) → (solve s).auth_repository ≡ get_auth_repository (solve s).session
  pub auth_service :
      (s : AsyncSession)
      → (solve s).auth_service
        ≡ get_auth_service (solve s).auth_repository (solve s).user_service (solve s).uow
