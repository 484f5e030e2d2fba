-- ===== src/Lib.antt =====
-- async-pulse: a verification library for the backend under `src/`.
--
-- The program is an HTTP service with user accounts and login sessions. `src/modules/users` owns
-- the table `users`: an entity with a status machine, a repository, a service and the routes.
-- `src/modules/auth` owns the table `sessions`: it logs users in, rotates refresh tokens, logs
-- out, and is the gate in front of every protected route. `src/core/cache.py` wraps Redis with
-- an in-memory fallback; both modules keep sessions (`session:{id}`), rotated pairs
-- (`grace:{id}`) and identities (`user:{id}`) in it. The users service ends sessions through a
-- port that `src/modules/auth/session_revoker.py` implements. `src/main.py` puts the routes
-- behind the exception handlers of `src/core/exception_handlers.py` and the middleware of
-- `src/core/middleware.py`. The tables are made by the revisions in `alembic/versions`, which
-- `alembic/env.py` runs.
--
-- How code is read. A request is an action on a `World` (Db/World): the committed tables, the
-- tables that the open transaction sees, the state of the cache client, the clock and the source
-- of identifiers. The clock shows `clock n` at its n-th reading, and the n-th identifier is
-- `uuid n`, so every reading of the code has its own value. An action returns a result and the
-- world that it leaves: what was written before an exception stays written. Exceptions are
-- values (Python/Result). A method that changes an object returns the changed object. Database
-- constraints (keys, uniqueness, references, column widths) are those that the ORM models
-- declare; they are checked when the session is flushed, and a refused flush rolls the
-- transaction back. Queries are selections of rows in their stored order. Times are microseconds
-- since the epoch on natural numbers; a date is naive or aware, and every aware one is in UTC.
--
-- Files:
-- - Prelude: shared names, Boolean tests, lists.
-- - Python: dates, exceptions, flat JSON objects, the encodings, actions.
-- - Core/Settings: `src/core/settings.py`.
-- - Shared/Exceptions, Shared/Security: `src/shared/exceptions.py` and the exception classes,
--   `src/shared/security.py`.
-- - Db/Tables, Db/World, Db/Rows, Db/Act: the tables with their constraints, and
--   `src/db/session.py` with `src/db/unit_of_work.py`. Db/Act/Tx has a rule for each way to
--   build an action, on how the committed tables and the open ones are related afterwards (Flush
--   and Weaken have further ones), Db/Act/Yields on what an action that returns leaves behind;
--   Db/Tables/Keys says which changes keep the constraints.
-- - Db/Sessions: several sessions over one database, and `get_async_session` of
--   `src/db/session.py`; Sessions/Shared has its laws. Wiring: the objects of a request and the
--   functions that build them, in `src/modules/users/dependencies.py`,
--   `src/modules/auth/dependencies/providers.py` and the constructors; Wiring/Calls has methods
--   of theirs that work on more than one object, Wiring/Transaction says that they are one
--   transaction.
-- - Env: what the services use and do not implement: the cache behind an interface, `jose.jwt`,
--   `bcrypt`, `json` and `isoformat`, the settings. Env/Cached has the cache's methods as
--   actions, Env/Forgets the promise on deletions that logging out and suspending rely on, which
--   Cache/Deletion and Cache/Keeps are about (Env/Forgotten has the rules for it), and
--   Env/Retains the promises on what is found, at any time and after a deletion, that the gate
--   and a refresh rely on, which Cache/Retention is about. No promise covers a write with a time
--   to live of 0, which Redis refuses.
-- - Users/Entities, Models, Repository, Schemas, Service, Router, Exceptions: the files of that
--   name in `src/modules/users`. Entities/Lifecycle, Repository/Effects, Registration, Profile,
--   Profile/Saves, Password, Listing, Router/Access and Router/Secrecy are about them.
-- - Auth/Entities, Models, Repository, Schemas, Exceptions, Router: the files of that name in
--   `src/modules/auth`. Auth/Service has `service.py` by use case (Sessions, Login, Logout,
--   Refresh), Auth/Revoker is `session_revoker.py`, Auth/Gate is
--   `dependencies/authentication.py` and `dependencies/permissions.py`.
-- - Auth/Rotation, Rotation/Race, Renewal, Renewal/Atomic, Renewal/Admits, Reuse and Presents
--   are about refreshing; Chain about the rows that successive refreshes leave (Writes,
--   Requests, Refresh and Login have the steps of the use cases, Accounts, Erasure and Commands
--   those of the users module; Invariant is the interface of a property of the rows, Reachable
--   the step relation on states, for any such property, Linear and History two of them);
--   Signout, Locked, Lockout, Router/Laws and Router/Finality about ending sessions; Access,
--   Admission, Admission/Stale, Admission/Verdict, Admission/Coherent, Admission/Checks,
--   Admission/Equivalence, Admission/Passes, Refused (Unknown and Forgetting have the steps,
--   Suspension and Deletion the results) and Gate/Keeps about who passes, Credentials, Opening,
--   Opening/Admits and Limit about logging in. Chain/Adding is about the rows that are added.
-- - Cache/Store, Client: `src/core/cache.py`; Failover, Fallback, Trace, Deletion, Keeps and
--   Retention are about it.
-- - Shared/Responses, Core/Handlers, Core/Middleware: `src/shared/responses.py`,
--   `src/core/exception_handlers.py`, `src/core/middleware.py`.
-- - Main: `src/main.py`, and FastAPI's layers around a route. Answers, Domain and Routes are
--   about what a client is told.
-- - Migrations/Versions, Environment, Metadata: `alembic/versions`, `alembic/env.py`, and
--   `Base.metadata` with both models. Migrations/Catalog has the operations of `alembic.op` on a
--   list of tables; Head, Runs and Models are about the run of all revisions, with the table in
--   which Alembic records them.
-- - Tests: a small installation, and the theorems on it.
--
-- Parameters. The JWT library, bcrypt, the JSON and date encodings, the Redis commands and, for
-- the services, the cache client are arguments. FastAPI is a parameter with the layers of its
-- documentation (Main), and with one call of each dependency in a request (Wiring); so are the
-- database server with its DDL, and Alembic's record of what was applied
-- (Migrations/Environment). A theorem that needs one of them to answer says so at that input:
-- that a token is decoded to certain claims, that a password matches, that a date reads back
-- from its text.
--
-- Bounds and fuel. `get`, `set` and `delete` of the cache client call themselves after a Redis
-- error; with_fallback has fuel for it, and the methods give it 2. The loops over the
-- occurrences of a text, over digits and over revisions have fuel that is the length of the
-- text, the number or the list. All other loops are structural. Numbers are unbounded, as in
-- Python.
--
-- Simplifications. The theorems on requests run them one after another, so races between two
-- open transactions are outside them, but for the one in Auth/Rotation/Race, where the second
-- transaction writes what it read before the first one committed. Cached JSON objects are flat
-- dicts of strings and nulls, which is all that the program caches. Emails are taken as valid
-- addresses. The database's identifiers are texts. Queries see the writes of their transaction,
-- as the session flushes before it reads. A query with ORDER BY leaves rows with equal keys in
-- their stored order, which SQL leaves open: the theorem on the pages of users is about users
-- whose creation times differ.
--
-- Not modelled: the matching of requests to routes and the parsing of their parameters; response
-- headers; the dump of model objects to JSON; logging, start and shutdown; the loading of
-- settings; the SQL that the offline run of Alembic prints.
pub mod Prelude
pub mod Python
pub mod Core
pub mod Shared
pub mod Db
pub mod Env
pub mod Users
pub mod Auth
pub mod Cache
pub mod Wiring
pub mod Main
pub mod Migrations
pub mod Tests
