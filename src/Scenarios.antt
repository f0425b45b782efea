-- ===== src/Scenarios.antt =====
-- The tests of src/tests/api.rs: requests to the test application, and what is asserted of the
-- replies. A body is the value that is sent as JSON, so `body_json` is left out.
use rhel9_app_micro.Prelude.{
  ℕ, String, ◌<>◌, none, some, List, ◌∷◌, length, str_eq, ◌==◌, if◌then◌else◌,
}
use rhel9_app_micro.Prelude.Int.{pos}
use rhel9_app_micro.Outcome.{Except, ok, err, pure, ◌>>=◌, ◌>>◌}
use rhel9_app_micro.Process.{run_alone}
use rhel9_app_micro.Assertions.{Checked, assert, unwrap}
use rhel9_app_micro.Models.{
  Task, todo, done, status_as_str, CreateTask, UpdateTask, AuditEvent, LoginResponse,
}
use rhel9_app_micro.Platform.{Platform}
use rhel9_app_micro.Extract.{Headers, visible}
use rhel9_app_micro.Observe.{Server}
use rhel9_app_micro.Handlers.{AppState, Pagination, AuditQuery}
use rhel9_app_micro.Api.{
  Endpoint, login, list_tasks, create_task, get_task, update_task, delete_task, list_audit, healthz,
  readyz, openapi_json, Body, session, task, tasks, events, document, Reply,
}
use rhel9_app_micro.Document.{OpenApi}
use rhel9_app_micro.Startup.{Host, Boot, Router, build_test_app}

-- The headers of a request, with a token or without.
abbrev no_token : Headers
no_token name = none

abbrev with_token : String → Headers
with_token token name =
    if str_eq name "authorization" then some (visible ("Bearer " <> token)) else none

-- A creation from a title only, and the query `?limit=10&offset=0`.
abbrev titled : String → CreateTask
titled title = record { title = title; description = ""; status = none }

abbrev ten : Pagination
ten = record { limit = some (pos 10); offset = some (pos 0) }

abbrev everything : AuditQuery
everything = record { actor = none; action = none; limit = none }

module _ (P : Platform) where
  -- A test is run on a server, by requests to the application.
  abbrev pub Scenario : Type 0 → Type 0
  Scenario A = Checked (Server P) A

  abbrev send : Router P → Headers → Endpoint → Scenario (Reply P.DateTime)
  send app headers endpoint =
      unwrap (run_alone (app (record { headers = headers; endpoint = endpoint })))

  -- A request, and `assert_eq!(resp.status(), status)`.
  abbrev expect_status : Router P → Headers → Endpoint → ℕ → Scenario (Body P.DateTime)
  expect_status app headers endpoint status = do
    resp ← send app headers endpoint
    assert (resp.0 == status)
    pure resp.1

  -- What is read from a body; the body of another kind is a panic.
  abbrev the_session : Body P.DateTime → Scenario LoginResponse
  the_session (session r) s = (ok r, s)
  the_session body s = (err tt, s)

  abbrev the_task : Body P.DateTime → Scenario (Task P.DateTime)
  the_task (task t) s = (ok t, s)
  the_task body s = (err tt, s)

  abbrev the_tasks : Body P.DateTime → Scenario (List (Task P.DateTime))
  the_tasks (tasks ts) s = (ok ts, s)
  the_tasks body s = (err tt, s)

  abbrev first_event : Body P.DateTime → Scenario (AuditEvent P.DateTime)
  first_event (events (e ∷ es)) s = (ok e, s)
  first_event body s = (err tt, s)

  abbrev the_document : Body P.DateTime → Scenario OpenApi
  the_document (document doc) s = (ok doc, s)
  the_document body s = (err tt, s)

  -- `login`
  unfoldable pub log_in : Router P → String → String → Scenario (Reply P.DateTime)
  log_in app username password =
      send app no_token (login (ok (record { username = username; password = password })))

  -- `token_for`
  unfoldable pub token_for : Router P → String → String → Scenario String
  unfolding log_in
  token_for app username password = do
    resp ← log_in app username password
    assert (resp.0 == 200)
    r ← the_session resp.1
    pure r.token

  -- `login_returns_token_and_validates`
  unfoldable pub login_returns_token_and_validates : Router P → Scenario Unit
  unfolding log_in
  login_returns_token_and_validates app = do
    good ← log_in app "admin" "admin123"
    assert (good.0 == 200)
    r ← the_session good.1
    assert (str_eq r.role "admin")
    assert (str_eq r.token_type "Bearer")
    bad ← log_in app "admin" "wrongpass"
    assert (bad.0 == 401)
    unknown ← log_in app "nobody" "whatever"
    assert (unknown.0 == 401)

  -- `tasks_require_auth`
  unfoldable pub tasks_require_auth : Router P → Scenario (Body P.DateTime)
  tasks_require_auth app =
      expect_status app no_token (list_tasks (ok (record { limit = none; offset = none }))) 401

  -- `task_crud_happy_path`
  unfoldable pub task_crud_happy_path : Router P → Scenario (Body P.DateTime)
  unfolding token_for
  task_crud_happy_path app = do
    token ← token_for app "user" "user123"
    let body : CreateTask = record {
      title = "Write tests";
      description = "cover CRUD";
      status = some todo;
    }
    made ← expect_status app (with_token token) (create_task (ok body)) 201
    created ← the_task made
    assert (str_eq created.title "Write tests")
    assert (str_eq created.owner "user")
    assert (str_eq (status_as_str created.status) "todo")
    expect_status app (with_token token) (get_task created.id) 200
    listed ← expect_status app (with_token token) (list_tasks (ok ten)) 200
    list ← the_tasks listed
    assert (length list == 1)
    let change : UpdateTask = record { title = none; description = none; status = some done }
    changed ← expect_status app (with_token token) (update_task created.id (ok change)) 200
    updated ← the_task changed
    assert (str_eq (status_as_str updated.status) "done")
    expect_status app (with_token token) (delete_task created.id) 204
    expect_status app (with_token token) (get_task created.id) 404

  -- `invalid_task_input_is_rejected`
  unfoldable pub invalid_task_input_is_rejected : Router P → Scenario (Body P.DateTime)
  unfolding token_for
  invalid_task_input_is_rejected app = do
    token ← token_for app "user" "user123"
    expect_status app (with_token token) (create_task (ok (titled "   "))) 400

  -- `user_cannot_mutate_other_users_task`
  unfoldable pub user_cannot_mutate_other_users_task : Router P → Scenario (Body P.DateTime)
  unfolding token_for
  user_cannot_mutate_other_users_task app = do
    admin_token ← token_for app "admin" "admin123"
    user_token ← token_for app "user" "user123"
    made ← expect_status app (with_token admin_token) (create_task (ok (titled "admin task"))) 201
    created ← the_task made
    expect_status app (with_token user_token) (delete_task created.id) 403

  -- `rbac_user_cannot_access_audit`
  unfoldable pub rbac_user_cannot_access_audit : Router P → Scenario (Body P.DateTime)
  unfolding token_for
  rbac_user_cannot_access_audit app = do
    user_token ← token_for app "user" "user123"
    expect_status app (with_token user_token) (list_audit (ok everything)) 403

  -- `admin_can_read_audit_and_events_are_recorded`
  unfoldable pub admin_can_read_audit_and_events_are_recorded : Router P → Scenario Unit
  unfolding token_for
  admin_can_read_audit_and_events_are_recorded app = do
    admin_token ← token_for app "admin" "admin123"
    expect_status app (with_token admin_token) (create_task (ok (titled "audited task"))) 201
    let creations : AuditQuery = record everything { action = some "create" }
    read ← expect_status app (with_token admin_token) (list_audit (ok creations)) 200
    e ← first_event read
    assert (str_eq e.action "create")
    assert (str_eq e.actor "admin")
    assert (str_eq e.entity_type "task")

  -- `health_and_ready_are_public`
  unfoldable pub health_and_ready_are_public : Router P → Scenario (Body P.DateTime)
  health_and_ready_are_public app = do
    expect_status app no_token healthz 200
    expect_status app no_token readyz 200

  -- `openapi_json_is_served`
  unfoldable pub openapi_json_is_served : Router P → Scenario Unit
  openapi_json_is_served app = do
    served ← expect_status app no_token openapi_json 200
    doc ← the_document served
    assert (str_eq doc.title "SecureLedger API")

  -- A test on a new test application.
  module _ (H : Host P) where
    abbrev run_on :
        {A B : Type 0}
        → (Router P → Scenario A)
        → Except ℕ (Router P × AppState × Server P) × B
        → Except Unit A
    run_on scenario (ok (app, state, server), b) = (scenario app server).0
    run_on scenario (err code, b) = err tt

    unfoldable pub passes : {A : Type 0} → (Router P → Scenario A) → Boot P H → Except Unit A
    passes scenario b = run_on scenario (build_test_app P H b)
