-- ===== src/Api/Steps.antt =====
-- The requests of src/lib.rs as processes: the same handlers, cut at each call that touches shared
-- state, so that other requests may run between two calls. A function of src/db.rs takes a pooled
-- connection and sends one statement, which SQLite carries out whole: it is one step. So are the
-- check of the rate limiter, under its mutex, and the increment of the counter.
pub mod Alone
use rhel9_app_micro.Prelude.{ℕ, zero, suc, String, ◌<>◌, Bool, List, [], ◌∷◌, ◌++◌, if◌then◌else◌}
use rhel9_app_micro.Outcome.{Except, ok, err, Act, lift, map_err, run}
use rhel9_app_micro.Process.{Process, finish, step, atom, ◌>>=◌, ◌>>◌}
use rhel9_app_micro.Models.{
  Task, CreateTask, UpdateTask, status_as_str, validate_create, validate_update,
}
use rhel9_app_micro.Errors.{AppError, bad_request, forbidden, too_many_requests}
use rhel9_app_micro.Config.{Config}
use rhel9_app_micro.Platform.{Platform}
use rhel9_app_micro.RateLimit
use rhel9_app_micro.Extract.{Headers, AuthUser, auth_user, admin_user}
use rhel9_app_micro.Observe.{Server, client_key}
use rhel9_app_micro.Db
use rhel9_app_micro.Handlers
use rhel9_app_micro.Handlers.{AppState, existing_task, is_stranger}
use rhel9_app_micro.Document.{api_doc}
use rhel9_app_micro.Api.{
  undecodable, Extracted, Endpoint, login, list_tasks, create_task, get_task, update_task,
  delete_task, list_audit, healthz, openapi_json, swagger_ui, metrics, readyz, Request, template,
  Body, session, task, tasks, events, plain, document, health, redirect, Reply, refuse,
}

module _ (P : Platform) where
  -- What a request does to the database and the other shared things outside the server.
  abbrev pub Steps : Type 0 → Type 0
  Steps A = Process AppError P.World A

  -- `create_task`
  unfoldable pub create_steps : AuthUser → CreateTask → Steps (ℕ × Task P.DateTime)
  create_steps user input = do
    atom (map_err bad_request (lift (validate_create input)))
    created ← atom (Db.create_task P user.username input)
    atom (Db.record_audit P user.username "create" "task" created.id ("title=" <> created.title))
    finish (ok (201, created))

  -- The part of `update_task` behind the test of who may change the task.
  unfoldable pub update_rest : AuthUser → Task P.DateTime → UpdateTask → Steps (Task P.DateTime)
  update_rest user existing input = do
    updated ← atom (Db.update_task P existing input)
    atom (
        Db.record_audit P user.username "update" "task" updated.id
          ("status=" <> status_as_str updated.status))
    finish (ok updated)

  -- `update_task`
  unfoldable pub update_steps : AuthUser → String → UpdateTask → Steps (Task P.DateTime)
  unfolding update_rest
  update_steps user id input = do
    atom (map_err bad_request (lift (validate_update input)))
    existing ← atom (existing_task P id)
    if is_stranger P user existing
        then finish (err (forbidden "you may only modify your own tasks"))
        else update_rest user existing input

  -- The same part of `delete_task`.
  unfoldable pub delete_rest : AuthUser → String → Steps ℕ
  delete_rest user id = do
    atom (Db.delete_task P id)
    atom (Db.record_audit P user.username "delete" "task" id "")
    finish (ok 204)

  -- `delete_task`
  unfoldable pub delete_steps : AuthUser → String → Steps ℕ
  unfolding delete_rest
  delete_steps user id = do
    existing ← atom (existing_task P id)
    if is_stranger P user existing
        then finish (err (forbidden "you may only delete your own tasks"))
        else delete_rest user id

  abbrev pub extracted_steps :
      {A : Type 0} → Extracted A → (A → Steps (Reply P.DateTime)) → Steps (Reply P.DateTime)
  extracted_steps (ok a) k = k a
  extracted_steps (err status) k = finish (ok (status, plain))

  -- The routes. The handlers that only read make one call each.
  unfoldable pub answer_steps : AppState → Headers → Endpoint → Steps (Reply P.DateTime)
  answer_steps state headers (login body) =
      extracted_steps body
        λ req. do r ← atom (Handlers.login P state req); finish (ok (200, session r))
  answer_steps state headers (list_tasks query) = do
    user ← atom (auth_user P state.config headers)
    extracted_steps query
        λ p. do ts ← atom (Handlers.list_tasks P user p); finish (ok (200, tasks ts))
  answer_steps state headers (create_task body) = do
    user ← atom (auth_user P state.config headers)
    extracted_steps body
        λ input. do created ← create_steps user input; finish (ok (created.0, task created.1))
  answer_steps state headers (get_task id) = do
    user ← atom (auth_user P state.config headers)
    t ← atom (Handlers.get_task P user id)
    finish (ok (200, task t))
  answer_steps state headers (update_task id body) = do
    user ← atom (auth_user P state.config headers)
    extracted_steps body λ input. do t ← update_steps user id input; finish (ok (200, task t))
  answer_steps state headers (delete_task id) = do
    user ← atom (auth_user P state.config headers)
    status ← delete_steps user id
    finish (ok (status, plain))
  answer_steps state headers (undecodable handler status) = do
    user ← atom (auth_user P state.config headers)
    finish (ok (status, plain))
  answer_steps state headers (list_audit query) = do
    admin ← atom (admin_user P state.config headers)
    extracted_steps query
        λ q. do es ← atom (Handlers.list_audit P admin q); finish (ok (200, events es))
  answer_steps state headers healthz = finish (ok (Handlers.healthz.0, health Handlers.healthz.1))
  answer_steps state headers openapi_json = finish (ok (200, document api_doc))
  answer_steps state headers swagger_ui = finish (ok (307, redirect "/api-docs/openapi.json"))
  answer_steps state headers metrics = finish (ok (200, plain))
  answer_steps state headers readyz = do
    r ← atom (run (Handlers.readyz P))
    finish (ok (r.0, health r.1))

  -- An error becomes its response.
  unfoldable pub respond :
      {W T : Type 0} → Process AppError W (Reply T) → Process AppError W (Reply T)
  respond (finish (ok reply)) = finish (ok reply)
  respond (finish (err e)) = finish (ok (refuse e))
  respond (step effect next) = step effect (λ w. respond (next w))

  -- The steps on the world, among those on the server.
  unfoldable pub on_world : {A : Type 0} → Steps A → Process AppError (Server P) A
  on_world (finish r) = finish r
  on_world (step effect next) =
      step (λ s. record s { world = effect s.world }) (λ s. on_world (next s.world))

  -- The part of `rate_limit` in front of the rest of the service.
  unfoldable pub admit : Config → Headers → Act AppError (Server P) Bool
  admit config headers s =
      let (key, w₁) = client_key P config headers s.world in
      let (start, w₂) = P.instant_now w₁ in
      let (now, w₃) = P.instant_now w₂ in
      let (allowed, limiter) = RateLimit.check P.governor s.limiter key start now in
      (ok allowed, record s { limiter = limiter; world = w₃ })

  -- A reading of the clock in `track_metrics`.
  unfoldable pub timed : {A : Type 0} → (P.World → A × P.World) → Act AppError (Server P) A
  timed clock s = let (reading, w) = clock s.world in (ok reading, record s { world = w })

  -- The increment of the counter.
  unfoldable pub count : Request → ℕ → Act AppError (Server P) Unit
  count req status s = (
    ok tt,
    record s {
      counted = s.counted ++ ((template req.endpoint).0, (template req.endpoint).1, status) ∷ [];
    },
  )

  -- The value that the histogram records.
  unfoldable pub observe : Request → P.Seconds → Act AppError (Server P) Unit
  observe req latency s = (
    ok tt,
    record s {
      latencies =
          s.latencies ++ ((template req.endpoint).0, (template req.endpoint).1, latency) ∷ [];
    },
  )

  -- The routes under the rate limit.
  unfoldable pub limited_steps : AppState → Request → Process AppError (Server P) (Reply P.DateTime)
  limited_steps state req = do
    allowed ← atom (admit state.config req.headers)
    if allowed
        then respond (on_world (answer_steps state req.headers req.endpoint))
        else finish (ok (refuse too_many_requests))

  -- The part of `track_metrics` behind the reply.
  unfoldable pub measure :
      Request → P.Monotonic → Reply P.DateTime → Process AppError (Server P) (Reply P.DateTime)
  measure req start reply = do
    latency ← atom (timed (P.elapsed start))
    atom (count req reply.0)
    atom (observe req latency)
    finish (ok reply)

  -- The whole application on one request.
  unfoldable pub handle_steps : AppState → Request → Process AppError (Server P) (Reply P.DateTime)
  unfolding limited_steps measure
  handle_steps state req = do
    start ← atom (timed P.monotonic_now)
    reply ← limited_steps state req
    measure req start reply
