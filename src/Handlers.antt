-- ===== src/Handlers.antt =====
-- src/handlers.rs, behind the extractors, with src/state.rs: each handler as an action on the
-- outside world that returns its status and its body, or an `AppError`.
pub mod Clamp
pub mod Create
pub mod Permission
pub mod Update
pub mod Delete
pub mod Session
pub mod Progress
pub mod Pages
pub mod Seeded
use rhel9_app_micro.Prelude.{
  none, some, ℕ, String, ◌<>◌, Bool, ◌&&◌, not, Option, List, str_eq, unwrap_or, if◌then◌else◌,
}
use rhel9_app_micro.Prelude.Int.{ℤ, pos, max_ℤ, clamp_ℤ}
use rhel9_app_micro.Outcome.{Except, ok, err, Act, pure, raise, lift, ok_or, map_err, ◌>>=◌, ◌>>◌}
use rhel9_app_micro.HashMap.{Map, lookup}
use rhel9_app_micro.Models.{
  User, role_as_str, Task, status_as_str, CreateTask, UpdateTask, validate_create, validate_update,
  AuditEvent, LoginRequest, LoginResponse,
}
use rhel9_app_micro.Errors.{AppError, bad_request, unauthorized, forbidden, not_found}
use rhel9_app_micro.Config.{Config}
use rhel9_app_micro.Platform.{Platform}
use rhel9_app_micro.Auth.{token_ttl_seconds, verify_password, issue_token}
use rhel9_app_micro.Extract.{AuthUser, is_admin}
use rhel9_app_micro.Db
use rhel9_app_micro.Db.{App}

-- `AppState`, less the pool, which is the platform's, and the rate limiter, which is the server's.
pub record AppState : Type 0 where
  pub config : Config
  pub users : Map User

pub record Pagination : Type 0 where
  pub limit : Option ℤ
  pub offset : Option ℤ

pub record AuditQuery : Type 0 where
  pub actor : Option String
  pub action : Option String
  pub limit : Option ℤ

unfoldable pub clamp_limit : Option ℤ → ℤ
clamp_limit limit = clamp_ℤ (unwrap_or limit (pos 50)) (pos 1) (pos 500)

unfoldable pub clamp_offset : Option ℤ → ℤ
clamp_offset offset = max_ℤ (unwrap_or offset (pos 0)) (pos 0)

-- The JSON of the two health checks.
pub record Health : Type 0 where
  pub status : String
  pub reason : Option String

-- `healthz`
abbrev pub healthz : ℕ × Health
healthz = (200, record { status = "ok"; reason = none })

module _ (P : Platform) where
  -- `login`
  unfoldable pub login : AppState → LoginRequest → App P LoginResponse
  login state req = do
    user ← ok_or (lookup req.username state.users) (unauthorized "invalid credentials")
    if not (verify_password P req.password user.password_hash)
        then raise (unauthorized "invalid credentials")
        else do
          token ← issue_token P state.config.jwt_secret user.username user.role
          pure (record {
            token = token;
            token_type = "Bearer";
            expires_in = token_ttl_seconds;
            role = role_as_str user.role;
          })

  -- `list_tasks`
  unfoldable pub list_tasks : AuthUser → Pagination → App P (List (Task P.DateTime))
  list_tasks user p = Db.list_tasks P (clamp_limit p.limit) (clamp_offset p.offset)

  -- `db::get_task(…)?.ok_or_else(…)?`
  unfoldable pub existing_task : String → App P (Task P.DateTime)
  existing_task id = do found ← Db.get_task P id; ok_or found (not_found "task not found")

  -- `get_task`
  unfoldable pub get_task : AuthUser → String → App P (Task P.DateTime)
  unfolding existing_task
  get_task user id = existing_task id

  -- `create_task`; the status is 201 Created.
  unfoldable pub create_task : AuthUser → CreateTask → App P (ℕ × Task P.DateTime)
  create_task user input = do
    map_err bad_request (lift (validate_create input))
    task ← Db.create_task P user.username input
    Db.record_audit P user.username "create" "task" task.id ("title=" <> task.title)
    pure (201, task)

  -- The test of `update_task` and `delete_task`: neither an admin nor the owner.
  unfoldable pub is_stranger : AuthUser → Task P.DateTime → Bool
  unfolding is_admin
  is_stranger user existing = not (is_admin user) && not (str_eq existing.owner user.username)

  -- `update_task`
  unfoldable pub update_task : AuthUser → String → UpdateTask → App P (Task P.DateTime)
  update_task user id input = do
    map_err bad_request (lift (validate_update input))
    existing ← existing_task id
    if is_stranger user existing then raise (forbidden "you may only modify your own tasks") else do
      updated ← Db.update_task P existing input
      Db.record_audit P user.username "update" "task" updated.id
          ("status=" <> status_as_str updated.status)
      pure updated

  -- `delete_task`; the status is 204 No Content.
  unfoldable pub delete_task : AuthUser → String → App P ℕ
  delete_task user id = do
    existing ← existing_task id
    if is_stranger user existing
        then raise (forbidden "you may only delete your own tasks")
        else do Db.delete_task P id; Db.record_audit P user.username "delete" "task" id ""; pure 204

  -- `list_audit`
  unfoldable pub list_audit : AuthUser → AuditQuery → App P (List (AuditEvent P.DateTime))
  list_audit admin q = Db.list_audit P q.actor q.action (clamp_limit q.limit)

  abbrev pub ready_status : Except AppError Unit × P.World → (ℕ × Health) × P.World
  ready_status (ok _, w) = ((200, record { status = "ready"; reason = none }), w)
  ready_status (err _, w) =
      ((503, record { status = "not_ready"; reason = some "database unavailable" }), w)

  -- `readyz`
  unfoldable pub readyz : P.World → (ℕ × Health) × P.World
  readyz w = ready_status (Db.ping P w)
