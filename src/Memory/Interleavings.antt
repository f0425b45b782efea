-- ===== src/Memory/Interleavings.antt =====
-- Requests served together over the in-memory platform.
use rhel9_app_micro.Prelude.{
  ℕ, ◌≡◌, refl, none, some, List, [], ◌∷◌, length, map, arith, str_eq, eq_iff, if◌then◌else◌,
}
use rhel9_app_micro.Prelude.Int.{pos}
use rhel9_app_micro.Outcome.{ok}
use rhel9_app_micro.Text
use rhel9_app_micro.Text.{strip_prefix}
use rhel9_app_micro.Text.Decimal.{show}
use rhel9_app_micro.Text.Trim.{trim-IsTrimmed}
use rhel9_app_micro.HashMap.{lookup, insert}
use rhel9_app_micro.Process.{Process, finish, ◌>>=◌, advance, interleave}
use rhel9_app_micro.Models.{
  user, todo, done, status_as_str, status_from_str, role_from_str, validate_update,
}
use rhel9_app_micro.Errors.{AppError}
use rhel9_app_micro.Config.Number.{parse_u32, parse_digits}
use rhel9_app_micro.RateLimit
use rhel9_app_micro.Auth.{claims_role, decode_token}
use rhel9_app_micro.Extract.{Headers, visible, AuthUser, is_admin, auth_user, bearer_token}
use rhel9_app_micro.Observe.{Server, client_key}
use rhel9_app_micro.Db
use rhel9_app_micro.Db.Lawful.Rows.{
  TaskRow, find_task, find_audit, task_columns, patch_where, remove_where,
}
use rhel9_app_micro.Handlers.{AppState, existing_task, is_stranger}
use rhel9_app_micro.Api.{Request, Endpoint, Reply}
use rhel9_app_micro.Api.AuditLog.{Grows}
use rhel9_app_micro.Api.Valid.{IsValid}
use rhel9_app_micro.Api.Access.{IsOutsider}
use rhel9_app_micro.Api.Steps.{
  handle_steps, answer_steps, update_steps, update_rest, delete_steps, delete_rest, respond,
  on_world, admit, timed, count, observe,
}
use rhel9_app_micro.Api.Concurrent.Access.{requests-keep_task}
use rhel9_app_micro.Api.Concurrent.Valid.{requests-IsValid}
use rhel9_app_micro.Api.Concurrent.AuditLog.{requests-Grows}
use rhel9_app_micro.Memory.{Disk, memory}
use rhel9_app_micro.Memory.Lawful.{on_disk, memory-IsLawful}

abbrev pub state : AppState
state = record {
  config = record { jwt_secret = "s"; db_path = "db"; bind_addr = "0"; rate_limit_per_min = 9 };
  users = [];
}

abbrev pub fix_leak : TaskRow
fix_leak = record {
  id = "id-0";
  title = "fix";
  description = "the leak";
  status = "todo";
  owner = "user";
  created_at = "3";
  updated_at = "3";
}

abbrev pub disk : Disk
disk = record { tasks = fix_leak ∷ []; audits = []; clock = 4; ids = 1; outages = [] }

abbrev pub server : Server memory
server = record {
  limiter = RateLimit.new memory.governor 9;
  counted = [];
  latencies = [];
  world = disk;
}

abbrev pub as_user : Headers
as_user name = if str_eq name "authorization" then some (visible "Bearer Uuser") else none

abbrev plain_user : AuthUser
plain_user = record {
  username = "user";
  role = user;
  claims = record { sub = "user"; role = "user"; exp = pos 3600; iat = pos 0 };
}

abbrev pub by_user : Endpoint → Request
by_user endpoint = record { headers = as_user; endpoint = endpoint }

-- Two updates of different fields of one task.
abbrev pub rename : Request
rename = by_user (
    Endpoint.update_task "id-0"
      (ok (record { title = some "mend"; description = none; status = none })))

abbrev pub set_done : Request
set_done = by_user (
    Endpoint.update_task "id-0"
      (ok (record { title = none; description = none; status = some done })))

-- Both read the task, then each writes and finishes.
abbrev pub both_read_first : List ℕ
both_read_first = 0 ∷ 0 ∷ 0 ∷ 0 ∷ 0 ∷ 1 ∷ 1 ∷ 1 ∷ 1 ∷ 1 ∷ 0 ∷ 0 ∷ 0 ∷ 0 ∷ 0 ∷ 1 ∷ 1 ∷ 1 ∷ 1 ∷ 1 ∷ []

abbrev statuses : List (Process AppError (Server memory) (Reply ℕ)) → List ℕ
statuses [] = []
statuses (finish (ok reply) ∷ ps) = reply.0 ∷ statuses ps
statuses (p ∷ ps) = 0 ∷ statuses ps

-- The second writes back the title that it read: both are answered by 200, and the new title is
-- lost.
lost_update :
    let (ps, s) =
      interleave both_read_first
        (map (handle_steps memory state) (rename ∷ set_done ∷ []))
        server in
    (statuses ps ≡ 200 ∷ 200 ∷ [])
    × (map (λ (r : TaskRow). r.title) s.world.tasks ≡ "fix" ∷ [])
    × (map (λ (r : TaskRow). r.status) s.world.tasks ≡ "done" ∷ [])
    × (length s.world.audits ≡ 2)
unfolding interleave advance ◌>>=◌ handle_steps answer_steps update_steps update_rest delete_steps
    delete_rest respond on_world admit timed count observe client_key decode_token strip_prefix
    Text.trim RateLimit.check RateLimit.new lookup insert auth_user bearer_token claims_role
    role_from_str validate_update existing_task is_stranger is_admin Db.get_task Db.get_conn
    Db.row_to_task Db.parse_ts Db.update_task Db.delete_task Db.record_audit task_columns find_task
    find_audit parse_u32 parse_digits show status_as_str status_from_str patch_where remove_where
    Text.is_empty
lost_update = (refl, refl, refl, refl)

abbrev remove : Request
remove = by_user (Endpoint.delete_task "id-0")

-- Both deletions read the task: both are answered by 204 and both are logged.
deleted_twice :
    let (ps, s) =
      interleave
        (0 ∷ 0 ∷ 0 ∷ 0 ∷ 1 ∷ 1 ∷ 1 ∷ 1 ∷ 0 ∷ 0 ∷ 0 ∷ 0 ∷ 0 ∷ 1 ∷ 1 ∷ 1 ∷ 1 ∷ 1 ∷ [])
        (map (handle_steps memory state) (remove ∷ remove ∷ []))
        server in
    (statuses ps ≡ 204 ∷ 204 ∷ []) × (s.world.tasks ≡ []) × (length s.world.audits ≡ 2)
unfolding interleave advance ◌>>=◌ handle_steps answer_steps update_steps update_rest delete_steps
    delete_rest respond on_world admit timed count observe client_key decode_token strip_prefix
    Text.trim RateLimit.check RateLimit.new lookup insert auth_user bearer_token claims_role
    role_from_str validate_update existing_task is_stranger is_admin Db.get_task Db.get_conn
    Db.row_to_task Db.parse_ts Db.update_task Db.delete_task Db.record_audit task_columns find_task
    find_audit parse_u32 parse_digits show status_as_str status_from_str patch_where remove_where
    Text.is_empty
deleted_twice = (refl, refl, refl)

abbrev owned_by_admin : TaskRow
owned_by_admin = record fix_leak { owner = "admin" }

abbrev guarded : Server memory
guarded = record server { world = record disk { tasks = owned_by_admin ∷ [] } }

authenticated : (d : Disk) → auth_user memory state.config as_user d ≡ (ok plain_user, d)
unfolding auth_user bearer_token decode_token claims_role strip_prefix Text.trim role_from_str
authenticated d = refl

user-IsOutsider : IsOutsider memory on_disk state.config as_user "admin"
unfolding is_admin
user-IsOutsider u (v, w, e) =
    let same : plain_user ≡ u = cc (authenticated v, e) in
    rw (← same) (refl, λ h. (let no = eq_iff "user" "admin" in ground arith))

requests-keep_task_example :
    find_task "id-0"
      (interleave both_read_first
        (map (handle_steps memory state) (rename ∷ remove ∷ []))
        guarded).1.world.tasks
    ≡ some owned_by_admin
requests-keep_task_example =
    requests-keep_task memory on_disk memory-IsLawful state "id-0" owned_by_admin
      (rename ∷ remove ∷ []) both_read_first guarded (user-IsOutsider, (user-IsOutsider, tt))
      (unfold find_task in refl)

pub disk-IsValid : IsValid disk.tasks
unfolding status_as_str Text.is_empty Text.trim find_task find_audit
disk-IsValid = (
  (
    record {
      title = (refl, omega arith);
      trimmed = trim-IsTrimmed "fix";
      description = omega arith;
      status = (todo, refl);
    },
    tt,
  ),
  (refl, tt),
)

requests-IsValid_example :
    IsValid
      (interleave both_read_first
        (map (handle_steps memory state) (rename ∷ set_done ∷ []))
        server).1.world.tasks
requests-IsValid_example =
    requests-IsValid memory on_disk memory-IsLawful state (rename ∷ set_done ∷ []) both_read_first
      server disk-IsValid

requests-Grows_example :
    Grows memory on_disk disk
      (interleave both_read_first
        (map (handle_steps memory state) (rename ∷ remove ∷ []))
        server).1.world
requests-Grows_example =
    requests-Grows memory on_disk memory-IsLawful state (rename ∷ remove ∷ []) both_read_first
      server
