-- ===== src/Api.antt =====
-- src/lib.rs, `build_router`: the routes under their extractors, and the middlewares around them.
-- The matching of paths, the parsing of queries and the reading of JSON bodies are axum's: a
-- request comes with the endpoint that was matched, and with the id in its path, its query and its
-- body as they were read, or the status with which axum rejects them.
pub mod Rows
pub mod Quiet
pub mod Effects
pub mod Answers
pub mod Valid
pub mod AuditLog
pub mod Access
pub mod Guard
pub mod Counted
pub mod RoundTrip
pub mod Limited
pub mod Burst
pub mod Steps
pub mod Concurrent
use rhel9_app_micro.Prelude.{ℕ, String, Option, List, [], ◌∷◌}
use rhel9_app_micro.Outcome.{Except, ok, err, Act, pure, run, ◌>>=◌}
use rhel9_app_micro.Models.{Task, CreateTask, UpdateTask, AuditEvent, LoginRequest, LoginResponse}
use rhel9_app_micro.Errors.{AppError, ErrorBody, error_response}
use rhel9_app_micro.Platform.{Platform}
use rhel9_app_micro.Extract.{Headers, auth_user, admin_user}
use rhel9_app_micro.Observe.{Server, rate_limit, track_metrics}
use rhel9_app_micro.Document.{OpenApi, api_doc}
use rhel9_app_micro.Db.{App}
use rhel9_app_micro.Handlers
use rhel9_app_micro.Handlers.{Health, AppState, Pagination, AuditQuery}

-- A query or a body as its extractor gives it.
abbrev pub Extracted : Type 0 → Type 0
Extracted A = Except ℕ A

-- The handlers that take an id from the path.
pub data TaskHandler : Type 0 where
  reading updating deleting : TaskHandler

-- The routes: those of the handlers of src/handlers.rs, the document, its redirect, the metrics.
pub data Endpoint : Type 0 where
  login : Extracted LoginRequest → Endpoint
  list_tasks : Extracted Pagination → Endpoint
  create_task : Extracted CreateTask → Endpoint
  get_task : String → Endpoint
  update_task : String → Extracted UpdateTask → Endpoint
  delete_task : String → Endpoint
  -- A path whose id cannot be decoded, with the status with which axum rejects it.
  undecodable : TaskHandler → ℕ → Endpoint
  list_audit : Extracted AuditQuery → Endpoint
  healthz readyz openapi_json swagger_ui metrics : Endpoint

pub record Request : Type 0 where
  pub headers : Headers
  pub endpoint : Endpoint

-- The route templates of `build_router`, nested, and the methods.
unfoldable pub template : Endpoint → String × String
template (login body) = ("POST", "/api/auth/login")
template (list_tasks query) = ("GET", "/api/tasks")
template (create_task body) = ("POST", "/api/tasks")
template (get_task id) = ("GET", "/api/tasks/:id")
template (update_task id body) = ("PUT", "/api/tasks/:id")
template (delete_task id) = ("DELETE", "/api/tasks/:id")
template (undecodable reading status) = ("GET", "/api/tasks/:id")
template (undecodable updating status) = ("PUT", "/api/tasks/:id")
template (undecodable deleting status) = ("DELETE", "/api/tasks/:id")
template (list_audit query) = ("GET", "/api/audit")
template healthz = ("GET", "/healthz")
template readyz = ("GET", "/readyz")
template openapi_json = ("GET", "/api-docs/openapi.json")
template swagger_ui = ("GET", "/swagger-ui")
template metrics = ("GET", "/metrics")

-- The bodies of responses.
pub data Body (T : Type 0) : Type 0 where
  session : LoginResponse → Body T
  task : Task T → Body T
  tasks : List (Task T) → Body T
  events : List (AuditEvent T) → Body T
  problem : ErrorBody → Body T
  document : OpenApi → Body T
  health : Health → Body T
  -- The address in the header `Location`.
  redirect : String → Body T
  -- No body, or one that is not modelled: a rejection by axum, or the text of the metrics.
  plain : Body T

abbrev pub Reply : Type 0 → Type 0
Reply T = ℕ × Body T

abbrev pub refuse : {T : Type 0} → AppError → Reply T
refuse e = let (status, body) = error_response e in (status, problem body)

module _ (P : Platform) where
  -- An extractor that comes after the user's: a rejection ends the request.
  abbrev pub extracted :
      {A : Type 0} → Extracted A → (A → App P (Reply P.DateTime)) → App P (Reply P.DateTime)
  extracted (ok a) k = k a
  extracted (err status) k = pure (status, plain)

  -- Each route with its extractors, in the order of the handler's arguments.
  unfoldable pub answer : AppState → Headers → Endpoint → App P (Reply P.DateTime)
  answer state headers (login body) =
      extracted body λ req. do r ← Handlers.login P state req; pure (200, session r)
  answer state headers (list_tasks query) = do
    user ← auth_user P state.config headers
    extracted query λ p. do ts ← Handlers.list_tasks P user p; pure (200, tasks ts)
  answer state headers (create_task body) = do
    user ← auth_user P state.config headers
    extracted body
        λ input. do (status, t) ← Handlers.create_task P user input; pure (status, task t)
  answer state headers (get_task id) = do
    user ← auth_user P state.config headers
    t ← Handlers.get_task P user id
    pure (200, task t)
  answer state headers (update_task id body) = do
    user ← auth_user P state.config headers
    extracted body λ input. do t ← Handlers.update_task P user id input; pure (200, task t)
  answer state headers (delete_task id) = do
    user ← auth_user P state.config headers
    status ← Handlers.delete_task P user id
    pure (status, plain)
  answer state headers (undecodable handler status) = do
    user ← auth_user P state.config headers
    pure (status, plain)
  answer state headers (list_audit query) = do
    admin ← admin_user P state.config headers
    extracted query λ q. do es ← Handlers.list_audit P admin q; pure (200, events es)
  answer state headers healthz = pure (Handlers.healthz.0, health Handlers.healthz.1)
  answer state headers openapi_json = pure (200, document api_doc)
  answer state headers swagger_ui = pure (307, redirect "/api-docs/openapi.json")
  answer state headers metrics = pure (200, plain)
  answer state headers readyz = do r ← run (Handlers.readyz P); pure (r.0, health r.1)

  abbrev pub into_response :
      Except AppError (Reply P.DateTime) × P.World → Reply P.DateTime × P.World
  into_response (ok reply, w) = (reply, w)
  into_response (err e, w) = (refuse e, w)

  -- The routes, as a service.
  unfoldable pub route : AppState → Request → P.World → Reply P.DateTime × P.World
  route state req w = into_response (answer state req.headers req.endpoint w)

  -- The routes under the rate limit.
  abbrev pub limited : AppState → Request → Server P → Reply P.DateTime × Server P
  limited state req = rate_limit P state.config req.headers refuse (route state req)

  -- The world in which the rate limit gets a request: the metrics have read the clock.
  abbrev pub started_world : Server P → P.World
  started_world s = (P.monotonic_now s.world).1

  -- The whole application on one request: metrics around the rate limit around the routes.
  unfoldable pub handle : AppState → Request → Server P → Reply P.DateTime × Server P
  handle state req =
      track_metrics P (template req.endpoint).0 (template req.endpoint).1 (λ r. r.0)
        (limited state req)

  -- Requests one after another.
  unfoldable pub serve : AppState → List Request → Server P → Server P
  serve state [] s = s
  serve state (req ∷ reqs) s = serve state reqs (handle state req s).1
