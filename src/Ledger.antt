-- ===== src/Ledger.antt =====
-- What the service promises, without its database: a map of tasks and a log of events. The proofs
-- in the modules below say that the routes of src/lib.rs do what is written here. Nothing here
-- follows the code: no rows, no times, no order of the tasks.
pub mod View
pub mod Located
pub mod Verdicts
pub mod Logging
pub mod Changes
pub mod Tasks
pub mod Creation
pub mod Requests
pub mod Service
use rhel9_app_micro.Prelude.{
  String, ◌<>◌, Bool, true, false, Option, none, some, unwrap_or, map_option, List, [], ◌∷◌, ◌++◌,
  str_eq, ◌||◌, if◌then◌else◌,
}
use rhel9_app_micro.Outcome.{Except, ok, err}
use rhel9_app_micro.Text.{trim}
use rhel9_app_micro.Models.{
  TaskStatus, todo, status_as_str, CreateTask, UpdateTask, validate_create, validate_update,
}
use rhel9_app_micro.Extract.{AuthUser, is_admin}

-- What is seen of a task.
pub record Entry : Type 0 where
  pub title : String
  pub description : String
  pub status : TaskStatus
  pub owner : String

-- What is seen of an event of the log.
pub record LedgerEvent : Type 0 where
  pub id : String
  pub actor : String
  pub action : String
  pub task : String
  pub detail : String

pub record Ledger : Type 0 where
  pub tasks : String → Option Entry
  pub log : List LedgerEvent

-- What a user may ask for. A creation comes with the id that is drawn for it, and each change with
-- the id that is drawn for its event, last.
pub data Command : Type 0 where
  create : String → CreateTask → String → Command
  read : String → Command
  update : String → UpdateTask → String → Command
  delete : String → String → Command

-- What the user gets: the task, under its id, or the reason why not.
pub data Verdict : Type 0 where
  created : String → Entry → Verdict
  shown : String → Entry → Verdict
  gone : Verdict
  invalid : String → Verdict
  absent : Verdict
  denied : String → Verdict
  -- The drawn id is in use.
  taken : Verdict
  -- The change is made, but the id that was drawn for its event is in use, so it is not logged.
  unlogged : Verdict

abbrev pub put : String → Option Entry → (String → Option Entry) → String → Option Entry
put id e tasks j = if str_eq id j then e else tasks j

-- A change of one task, with its event.
abbrev pub change : AuthUser → String → String → String → String → Option Entry → Ledger → Ledger
change user action id detail event e l = record {
  tasks = put id e l.tasks;
  log =
      l.log
      ++ record { id = event; actor = user.username; action = action; task = id; detail = detail }
        ∷ [];
}

-- Whether an event of the log has the id.
unfoldable pub has_event : String → List LedgerEvent → Bool
has_event id [] = false
has_event id (e ∷ es) = if str_eq e.id id then true else has_event id es

-- A change of one task, logged if the id of its event is new.
abbrev pub change_logged :
    AuthUser
    → String
    → String
    → String
    → String
    → Option Entry
    → Verdict
    → Ledger
    → Verdict × Ledger
change_logged user action id detail event e v l =
    if has_event event l.log
    then (unlogged, record l { tasks = put id e l.tasks })
    else (v, change user action id detail event e l)

abbrev pub fresh_entry : AuthUser → CreateTask → Entry
fresh_entry user input = record {
  title = trim input.title;
  description = input.description;
  status = unwrap_or input.status todo;
  owner = user.username;
}

abbrev pub revise : UpdateTask → Entry → Entry
revise input e = record {
  title = unwrap_or (map_option trim input.title) e.title;
  description = unwrap_or input.description e.description;
  status = unwrap_or input.status e.status;
  owner = e.owner;
}

-- Admins change every task, others their own.
unfoldable pub may : AuthUser → Entry → Bool
may user e = is_admin user || str_eq e.owner user.username

abbrev pub modify_own : String
modify_own = "you may only modify your own tasks"

abbrev pub delete_own : String
delete_own = "you may only delete your own tasks"

-- A change that the user must be allowed to make.
abbrev pub if_allowed : AuthUser → String → Entry → Verdict × Ledger → Ledger → Verdict × Ledger
if_allowed user message e done l = if may user e then done else (denied message, l)

abbrev pub create_at :
    AuthUser
    → String
    → CreateTask
    → String
    → Option Entry
    → Except String Unit
    → Ledger
    → Verdict × Ledger
create_at user id input event old (err m) l = (invalid m, l)
create_at user id input event (some e) (ok v) l = (taken, l)
create_at user id input event none (ok v) l =
    let e = fresh_entry user input in
    change_logged user "create" id ("title=" <> e.title) event (some e) (created id e) l

abbrev pub read_at : String → Option Entry → Ledger → Verdict × Ledger
read_at id none l = (absent, l)
read_at id (some e) l = (shown id e, l)

abbrev pub update_at :
    AuthUser
    → String
    → UpdateTask
    → String
    → Option Entry
    → Except String Unit
    → Ledger
    → Verdict × Ledger
update_at user id input event old (err m) l = (invalid m, l)
update_at user id input event none (ok v) l = (absent, l)
update_at user id input event (some old) (ok v) l =
    let e = revise input old in
    if_allowed user modify_own old
      (change_logged user "update" id ("status=" <> status_as_str e.status) event (some e)
        (shown id e) l)
      l

abbrev pub delete_at : AuthUser → String → String → Option Entry → Ledger → Verdict × Ledger
delete_at user id event none l = (absent, l)
delete_at user id event (some old) l =
    if_allowed user delete_own old (change_logged user "delete" id "" event none gone l) l

-- The promise: what each command of a user gets, and the ledger that it leaves.
unfoldable pub decide : AuthUser → Command → Ledger → Verdict × Ledger
decide user (create id input event) l =
    create_at user id input event (l.tasks id) (validate_create input) l
decide user (read id) l = read_at id (l.tasks id) l
decide user (update id input event) l =
    update_at user id input event (l.tasks id) (validate_update input) l
decide user (delete id event) l = delete_at user id event (l.tasks id) l

-- What a request comes to: a command of a user, or nothing that the ledger sees.
pub data Call : Type 0 where
  by : AuthUser → Command → Call
  idle : Call

abbrev pub after : Call → Ledger → Ledger
after (by user c) l = (decide user c l).1
after idle l = l

unfoldable pub replay : List Call → Ledger → Ledger
replay [] l = l
replay (c ∷ cs) l = replay cs (after c l)
