-- ===== src/Lib.antt =====
-- A model of the Python service (python/src/app): a multi-tenant application with users, tenants,
-- roles, sessions, tokens, rate limits and feature flags.
--
-- The program is layered. The routers and the dependencies of deps/ call the services, these call
-- the repositories through the ports, and a repository works on a table of the database, on the
-- cache, or wraps another repository with the cache. The modules follow these layers. Paths below
-- are relative to python/src/app.
--
-- - Prelude: names and lemmas that all modules share. Python: what the program takes from Python:
--   coroutines with exceptions and state (Exec), integers, text, UUIDs, dictionaries, dynamic values
--   with their equality. A write before an exception stays, since the state comes back with it.
-- - Domain: domain/user.py, domain/tenant.py with its state machine, domain/auth.py and
--   domain/feature.py, dataclasses as records and methods as functions.
-- - Cache: ports/cache.py (Client), InMemoryCache of infrastructure/cache/redis_client.py
--   (InMemory), AioredisClient there (Redis), the keys (Keys), and what a working cache guarantees
--   (Documented).
-- - Db: the statements of a database session on a table, by their documented behaviour, rows that
--   stand beside a cache (Rows), and `get_db` of deps/injection.py, whose session drops at its end
--   what is not committed (Session).
-- - Sessions: infrastructure/repositories/session_cache_repository.py and
--   services/session_service.py (Service).
-- - Audit: infrastructure/repositories/audit_repository.py and services/audit_service.py; its events
--   are those of Domain.Audit, domain/audit.py.
-- - Tokens: infrastructure/repositories/email_token_cache_repository.py (EmailTokens) and
--   infrastructure/repositories/tokens_repository.py (Refresh).
-- - Users: utils/password.py, infrastructure/repositories/users_repository.py (Repository), the
--   cache around it in infrastructure/repositories/caching/user_caching.py (Caching), and
--   services/user_service.py (Service).
-- - Tenants: infrastructure/repositories/tenants_repository.py, services/tenant_service.py, and the
--   cache in infrastructure/repositories/caching/tenant_caching.py (Caching) with its dictionaries of
--   infrastructure/repositories/caching/base.py (Cached).
-- - Permissions: domain/permission.py, infrastructure/repositories/permissions_repository.py
--   (Repository) and infrastructure/repositories/caching/permission_caching.py (Caching).
-- - Access: deps/auth.py, and `_check_user_access` of routers/users.py.
-- - Auth: `get_current_user` of deps/injection.py (CurrentUser) and the issuing of tokens in
--   services/auth_service.py (Issue).
-- - Features: services/feature_service.py, infrastructure/repositories/feature_repository.py
--   (Repository) and infrastructure/repositories/caching/feature_flag_caching.py (Caching).
--   Requests: middleware/current_user.py.
-- - Routers: routers/auth.py, logins and logouts (Auth) and the links in mails (EmailLinks),
--   routers/tenants.py (Tenants), routers/permissions.py (Permissions) and routers/feature_flags.py
--   (Features). Asking is what the last three have in common.
-- - Tests: concrete runs, at which the theorems apply.
--
-- A method has the name that it has in the code, without a leading underscore; a loop or a branch of
-- a method that is a function of its own stands directly above it. The state is a type `S`, which
-- each proof instantiates or leaves open. Numbers that the program keeps as ids and moments are
-- natural numbers, of any size as Python's are; a moment is a number of whole seconds, and the
-- present moment is an argument or the clock of the cache. The loops are structural recursions on
-- their lists, so there is no fuel, except in `show`, which takes the number itself as fuel: each
-- step divides it by ten.
--
-- Parameters of the model are the database (a Table with its documented laws), the cache where it
-- is not the one in memory, the client of Redis, `json`, `passlib`, `jose`, the SHA-256 of a token,
-- random tokens, mail, the salted `hash`, and the conversions of `datetime`. Requests do not
-- interleave inside a handler. A theorem about an operation or a sequence of operations is about one
-- session of the database; only those of Routers.Auth.Barred and Routers.Auth.Undone look at the end
-- of a session, where a write that was not committed is lost. There are no floating-point numbers
-- among the dynamic values. Logging and metrics are left out. Not modelled are the routers about
-- users (but for their access check) and the audit log, the repository of tokens that only hands
-- calls on, the middleware for headers, the schemas that are only declarations, the wiring and the
-- Go service.
pub mod Prelude
pub mod Python
pub mod Domain
pub mod Cache
pub mod Sessions
pub mod Db
pub mod Tenants
pub mod Tokens
pub mod Users
pub mod Access
pub mod Auth
pub mod Audit
pub mod Permissions
pub mod Features
pub mod Requests
pub mod Routers
pub mod Tests
