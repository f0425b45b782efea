-- ===== src/Lib.antt =====
-- Verification library of SecureLedger, a task service with an audit log (Rust, axum, SQLite).
--
-- The program. A request passes the metrics middleware and the rate limit (src/observe.rs), then
-- the route's extractors (src/extract.rs), which decode its token (src/auth.rs), and a handler
-- (src/handlers.rs). The handler validates the body (src/models.rs), asks who may change the task,
-- calls the queries (src/db.rs) and writes an event to the audit log. Errors are values of one
-- type, which determine the response (src/error.rs). src/lib.rs puts the parts together.
--
-- The files.
--   Models, Errors, Config: src/models.rs, src/error.rs, src/config.rs. `validate_create` is
--     `CreateTask::validate`, `validate_update` is `UpdateTask::validate`, `error_response` is
--     `into_response`, `from_env` is `Config::from_env` over a function for the environment.
--   RateLimit: src/ratelimit.rs, `RateLimiter::new` and `RateLimiter::check`; HashMap is the map
--     of limiters. A call of `check` holds the mutex, so it is one step.
--   Auth, Extract, Observe: src/auth.rs, src/extract.rs, src/observe.rs, one definition for each
--     function; `auth_user` and `admin_user` are the two `from_request_parts`.
--   Db: src/db.rs, one definition for each query, with the text of its statement in Db/Sql.
--   Handlers: src/handlers.rs and src/state.rs, one definition for each handler.
--   Api: src/lib.rs, `build_router`. `answer` is the routes with their extractors, `handle` one
--     request through both middlewares, `serve` a sequence of requests. A request comes with the
--     endpoint that axum matched and with its query and body as axum read them, or the status with
--     which axum rejects them; an id in the path that axum cannot decode is an endpoint of its own.
--   Process: a computation as a sequence of atomic steps, and the interleaving of several by a
--     schedule. Api/Steps cuts the requests into such steps, `handle_steps`: a call of a function
--     of src/db.rs is one step, since it sends one statement on a pooled connection; so is a check
--     of the rate limiter, a reading of the clock, and what is recorded in the counter or the
--     histogram. Api/Concurrent has what every interleaving of requests keeps, and what their
--     replies stand for.
--   Ledger: what the service promises without its database, a map of tasks and a log with what each
--     command of a user does to them. `View` reads it off the tables, `Logging` what becomes of the
--     event of a change, `Requests` says which command a request stands for.
--   Document: src/openapi.rs and the `utoipa::path` attributes of src/handlers.rs; below it, the
--     routes of Api and the statuses of their answers beside what the document says of them.
--   Startup: src/main.rs, with `build_pool` of src/db.rs, `AppState::new` of src/state.rs and
--     `install_metrics` of src/observe.rs. `main` is the process from its start to its exit, over a
--     record `Host` of what it calls; an exit is an error value that holds the exit code, a panic
--     the code 101. The server that axum runs is a field of `Host`.
--   Platform: the crates chrono, uuid, r2d2, rusqlite, argon2, jsonwebtoken and governor, and the
--     monotonic clock of std, as the fields of a record over an outside world; every definition that
--     calls one takes it.
--   Outcome: results and actions. An action takes the world to a result and a world; `?` stops it
--     early, and what was written before stays written.
--   Text, Prelude: the methods of `str`, integers and lists that the code calls.
--   Scenarios: src/tests/api.rs, each test as requests to the test application, with Assertions for
--     what a test is. Auth/Units and RateLimit/Units are the unit tests of src/auth.rs and
--     src/ratelimit.rs.
--   Memory: a platform of tables in memory that meets the assumptions, and runs of the program
--     over it; Tests and RateLimit/Tests are runs that need none.
--
-- Assumptions. Db/Lawful says what the proofs use of SQLite: what each statement does to the two
-- tables, that an id of a task or of an event is never stored twice, that a failed statement changes
-- nothing, and that clocks, ids, tokens and the pool touch no table; the texts of the statements are
-- written out in Db/Lawful/Statements. RateLimit/Burst names the burst that governor documents,
-- Handlers/Session what jsonwebtoken documents of tokens it signed, Handlers/Seeded what argon2 does
-- of its hashes, Api/RoundTrip what chrono does of the times it writes, Auth/Units what the unit
-- tests want of argon2 and jsonwebtoken.
-- Startup/Tables says of axum that a server does what some interleaving of its requests does.
-- Db/Available says that the database is up, for the theorems that a change succeeds: a statement is
-- carried out where it meets the constraints of its table, a new id among them.
--
-- Bounds. Lengths are bytes of UTF-8, as `str::len` counts them. Numbers are unbounded naturals;
-- the allowance per minute is parsed with the overflow check of `u32`. Text/Decimal prints a number
-- with itself as fuel, which is enough since a division by ten makes it smaller.
-- A process has finitely many steps by its type; Api/Steps/Alone ties the steps of a request, run with
-- nothing in between, to `handle`.
--
-- Not modelled: how tokio waits for the two signals, and the draining of connections by axum (the
-- parameter that serves says which signal it saw); the texts of the metrics and of the document as
-- JSON; unknown paths; steps finer than a statement of SQLite.
pub mod Prelude
pub mod Outcome
pub mod Assertions
pub mod Process
pub mod Text
pub mod Models
pub mod Errors
pub mod Config
pub mod HashMap
pub mod RateLimit
pub mod Platform
pub mod Auth
pub mod Extract
pub mod Observe
pub mod Db
pub mod Handlers
pub mod Api
pub mod Ledger
pub mod Document
pub mod Startup
pub mod Scenarios
pub mod Memory
pub mod Tests
