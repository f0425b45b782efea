-- ===== src/Memory/Witnesses.antt =====
-- Runs of the program over the in-memory platform, at which the theorems are applied.
use rhel9_app_micro.Prelude.{
  ◌++◌, String, ◌<>◌, ◌≡◌, refl, true, false, none, some, List, length, [], ◌∷◌, arith, str_eq,
  eq_iff, if◌then◌else◌,
}
use rhel9_app_micro.Prelude.Int.{pos}
use rhel9_app_micro.Outcome.{ok, err}
use rhel9_app_micro.Text
use rhel9_app_micro.Text.Decimal.{show}
use rhel9_app_micro.Text.{trim, strip_prefix}
use rhel9_app_micro.Text.Trim.{trim-IsTrimmed}
use rhel9_app_micro.Models.{
  user, todo, done, status_as_str, role_from_str, CreateTask, UpdateTask, validate_create,
}
use rhel9_app_micro.Config.{Config}
use rhel9_app_micro.RateLimit
use rhel9_app_micro.Errors.{
  too_many_requests, internal, unauthorized, forbidden, from_r2d2, from_rusqlite,
}
use rhel9_app_micro.Auth.{claims_role, decode_token}
use rhel9_app_micro.Extract.{Headers, visible, AuthUser, is_admin, auth_user, bearer_token}
use rhel9_app_micro.Observe.{Server, client_key}
use rhel9_app_micro.Db
use rhel9_app_micro.Db.Lawful.{Same}
use rhel9_app_micro.Db.Lawful.Rows.{TaskRow, find_task, find_audit}
use rhel9_app_micro.Db.Reads.{ReadsTask, get_task-ReadsTask}
use rhel9_app_micro.Db.Lists.{ListsPage, list_tasks-ListsPage}
use rhel9_app_micro.Handlers
use rhel9_app_micro.Handlers.{AppState}
use rhel9_app_micro.Handlers.Pages.{AtMost, list_tasks-AtMost}
use rhel9_app_micro.Handlers.Create.{CreateOutcome, create_task-CreateOutcome}
use rhel9_app_micro.Handlers.Update.{UpdateOutcome, update_task-UpdateOutcome}
use rhel9_app_micro.Handlers.Delete.{DeleteOutcome, delete_task-DeleteOutcome}
use rhel9_app_micro.Observe.Keys.{IsUnauthorized, Keyed, auth_user-Keyed}
use rhel9_app_micro.HashMap.{lookup}
use rhel9_app_micro.Api.Limited.{admits, handle_refused}
use rhel9_app_micro.Api.Guard.{Answers, route_unauthenticated, route_not_admin}
use rhel9_app_micro.Api.Counted.{durations, answered, serve-counted}
use rhel9_app_micro.Api.{refuse, Request, Endpoint, serve, handle}
use rhel9_app_micro.Api.Access.{IsOutsider, serve-keeps}
use rhel9_app_micro.Api.AuditLog.{Grows, serve-Grows}
use rhel9_app_micro.Api.Valid.{IsValid, RowFits, serve-IsValid}
use rhel9_app_micro.Memory.{Disk, memory, unreliable}
use rhel9_app_micro.Memory.Lawful.{on_disk, memory-IsLawful}

abbrev config : Config
config = record { jwt_secret = "s"; db_path = "db"; bind_addr = "0"; rate_limit_per_min = 5 }

abbrev state : AppState
state = record { config = config; users = [] }

abbrev patch_oven : TaskRow
patch_oven = record {
  id = "id-0";
  title = "patch";
  description = "the oven";
  status = "todo";
  owner = "admin";
  created_at = "7";
  updated_at = "7";
}

-- One task of the admin's, and an empty log.
abbrev pub disk : Disk
disk = record { tasks = patch_oven ∷ []; audits = []; clock = 9; ids = 1; outages = [] }

abbrev server : Server memory
server = record {
  limiter = RateLimit.new memory.governor 5;
  counted = [];
  latencies = [];
  world = disk;
}

abbrev headers_of : String → Headers
headers_of token name =
    if str_eq name "authorization" then some (visible ("Bearer " <> token)) else none

abbrev as_user : Headers
as_user = headers_of "Uuser"

abbrev pub plain_user : AuthUser
plain_user = record {
  username = "user";
  role = user;
  claims = record { sub = "user"; role = "user"; exp = pos 3600; iat = pos 0 };
}

abbrev retitle : UpdateTask
retitle = record { title = some " mend "; description = none; status = some done }

abbrev buy : CreateTask
buy = record { title = " buy bread "; description = "two"; status = none }

abbrev requests : List Request
requests =
    record { headers = as_user; endpoint = Endpoint.delete_task "id-0" }
    ∷ record { headers = as_user; endpoint = Endpoint.update_task "id-0" (ok retitle) }
    ∷ record { headers = as_user; endpoint = Endpoint.create_task (ok buy) }
    ∷ []

authenticated : (d : Disk) → auth_user memory config as_user d ≡ (ok plain_user, d)
unfolding auth_user bearer_token decode_token claims_role strip_prefix Text.trim role_from_str
authenticated d = refl

user-IsOutsider : IsOutsider memory on_disk config as_user "admin"
unfolding is_admin
user-IsOutsider u (v, w, e) =
    let same : plain_user ≡ u = cc (authenticated v, e) in
    rw (← same) (refl, λ h. (let no = eq_iff "user" "admin" in ground arith))

serve-keeps_example :
    find_task "id-0" (on_disk.tasks (serve memory state requests server).world) ≡ some patch_oven
serve-keeps_example =
    serve-keeps memory on_disk memory-IsLawful state "id-0" patch_oven requests server
      (user-IsOutsider, (user-IsOutsider, (user-IsOutsider, tt))) (unfold find_task in refl)

serve-Grows_example : Grows memory on_disk disk (serve memory state requests server).world
serve-Grows_example = serve-Grows memory on_disk memory-IsLawful state requests server

patch_oven-RowFits : RowFits patch_oven
unfolding status_as_str Text.is_empty Text.trim
patch_oven-RowFits = record {
  title = (refl, omega arith);
  trimmed = trim-IsTrimmed "patch";
  description = omega arith;
  status = (todo, refl);
}

disk-IsValid : IsValid (disk.tasks)
disk-IsValid = ((patch_oven-RowFits, tt), (unfold find_task in refl, tt))

serve-IsValid_example : IsValid (on_disk.tasks (serve memory state requests server).world)
serve-IsValid_example =
    serve-IsValid memory on_disk memory-IsLawful state requests server disk-IsValid

update_task-UpdateOutcome_example :
    UpdateOutcome memory on_disk plain_user "id-0" retitle disk
      (Handlers.update_task memory plain_user "id-0" retitle disk)
update_task-UpdateOutcome_example =
    update_task-UpdateOutcome memory on_disk memory-IsLawful plain_user "id-0" retitle disk

delete_task-DeleteOutcome_example :
    DeleteOutcome memory on_disk plain_user "id-0" disk
      (Handlers.delete_task memory plain_user "id-0" disk)
delete_task-DeleteOutcome_example =
    delete_task-DeleteOutcome memory on_disk memory-IsLawful plain_user "id-0" disk

create_task-CreateOutcome_example :
    CreateOutcome memory on_disk plain_user buy disk
      (Handlers.create_task memory plain_user buy disk)
create_task-CreateOutcome_example =
    create_task-CreateOutcome memory on_disk memory-IsLawful plain_user buy disk

get_task-ReadsTask_example : ReadsTask memory on_disk "id-0" disk (Db.get_task memory "id-0" disk)
get_task-ReadsTask_example = get_task-ReadsTask memory on_disk memory-IsLawful "id-0" disk

list_tasks-ListsPage_example :
    ListsPage memory on_disk 1 0 disk (Db.list_tasks memory (pos 1) (pos 0) disk)
list_tasks-ListsPage_example = list_tasks-ListsPage memory on_disk memory-IsLawful 1 0 disk

-- The row is stored, and then the pool has no connection for the event: the log misses it.
abbrev failing_disk : Disk
failing_disk = record disk { outages = false ∷ true ∷ [] }

unlogged_creation :
    let (reply, after) = Handlers.create_task unreliable plain_user buy failing_disk in
    (reply ≡ err (internal "pool error: timed out waiting for connection"))
    × (length after.tasks ≡ 2)
    × (after.audits ≡ [])
unfolding Handlers.create_task Db.create_task Db.record_audit Db.get_conn validate_create Text.trim
    Text.is_empty status_as_str from_r2d2 from_rusqlite find_task find_audit show
unlogged_creation = (refl, refl, refl)

auth_user-Keyed_example : Keyed memory config as_user disk (auth_user memory config as_user disk)
auth_user-Keyed_example = auth_user-Keyed memory config as_user disk

-- A token that the decoder does not know.
unauthenticated :
    auth_user memory config (headers_of "X") disk
    ≡ (err (unauthorized "invalid or expired token"), disk)
unfolding auth_user bearer_token decode_token claims_role strip_prefix Text.trim role_from_str
unauthenticated = refl

route_unauthenticated_example :
    IsUnauthorized (unauthorized "invalid or expired token")
    × Answers memory state
        (headers_of "X")
        (Endpoint.delete_task "id-0")
        disk
        (refuse (unauthorized "invalid or expired token"), disk)
route_unauthenticated_example =
    route_unauthenticated memory state (headers_of "X") (Endpoint.delete_task "id-0") disk disk
      (unauthorized "invalid or expired token") tt unauthenticated

route_not_admin_example :
    Answers memory state as_user
      (Endpoint.list_audit (ok (record { actor = none; action = none; limit = none })))
      disk
      (refuse (forbidden "admin role required"), disk)
route_not_admin_example =
    route_not_admin memory state as_user (ok (record { actor = none; action = none; limit = none }))
      disk disk plain_user (authenticated disk) (unfold is_admin in refl)

serve-counted_example :
    ((serve memory state requests server).counted
      ≡ server.counted ++ answered memory state requests server)
    × ((serve memory state requests server).latencies
        ≡ server.latencies ++ durations memory state requests server)
serve-counted_example = serve-counted memory state requests server

list_tasks-AtMost_example :
    AtMost 500
      (Handlers.list_tasks memory plain_user
        (record { limit = some (pos 9000); offset = none })
        disk).0
list_tasks-AtMost_example =
    list_tasks-AtMost memory on_disk memory-IsLawful plain_user
      (record { limit = some (pos 9000); offset = none }) disk

-- The allowance of the user is used up.
abbrev exhausted : Server memory
exhausted = record server { limiter = record { per_minute = 5; buckets = ("sub:user", 0) ∷ [] } }

abbrev late : Request
late = record { headers = as_user; endpoint = Endpoint.create_task (ok buy) }

late_refused : admits memory state late exhausted ≡ false
unfolding client_key RateLimit.check lookup decode_token strip_prefix Text.trim
late_refused = refl

handle_refused_example :
    ((handle memory state late exhausted).0 ≡ refuse too_many_requests)
    × Same memory on_disk disk (handle memory state late exhausted).1.world
handle_refused_example =
    handle_refused memory on_disk memory-IsLawful state late exhausted late_refused
