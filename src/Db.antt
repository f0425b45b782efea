-- ===== src/Db.antt =====
-- src/db.rs: the queries, as actions on the outside world. SQLite is the `execute` and `query` of
-- the platform: each function here sends it the statement that the source sends.
mod Sql
pub mod Lawful
pub mod Reads
pub mod Outcomes
pub mod Writes
pub mod Lists
pub mod Available
unfoldable pub use Sql.*
use rhel9_app_micro.Prelude.{
  String, ◌<>◌, Bool, true, false, Option, none, some, List, [], ◌∷◌, ◌++◌, map, length, ◌+◌, ltb,
  ℕ, unwrap_or, map_option,
}
use rhel9_app_micro.Prelude.Int.{ℤ}
use rhel9_app_micro.Outcome.{Except, ok, err, Act, pure, raise, lift, run, map_err, ◌>>=◌, ◌>>◌}
use rhel9_app_micro.Text.{trim}
use rhel9_app_micro.Text.Decimal.{show, show_ℤ}
use rhel9_app_micro.Models.{
  Task, todo, status_as_str, status_from_str, CreateTask, UpdateTask, AuditEvent,
}
use rhel9_app_micro.Errors.{AppError, from_rusqlite, from_r2d2}
use rhel9_app_micro.Platform.{Platform, Row, Value, text, integer}

module _ (P : Platform) where
  -- An action that fails with the text of a rusqlite error, and one of the whole program.
  abbrev pub Sql : Type 0 → Type 0
  Sql A = Act String P.World A

  abbrev pub App : Type 0 → Type 0
  App A = Act AppError P.World A

  -- `pool.get()?`
  unfoldable pub get_conn : App Unit
  get_conn = map_err from_r2d2 P.pool_get

  -- `?` on a rusqlite result.
  abbrev pub sql : {A : Type 0} → Sql A → App A
  sql m = map_err from_rusqlite m

  -- `init_schema`
  unfoldable pub init_schema : App Unit
  unfolding get_conn
  init_schema = do get_conn; sql (P.execute_batch schema_sql); pure tt

  -- `query_row` with a closure that reads nothing.
  abbrev pub first_row : List (Except String Row) → Sql Unit
  first_row [] = raise "Query returned no rows"
  first_row (r ∷ rs) = do row ← lift r; pure tt

  -- `ping`
  unfoldable pub ping : App Unit
  unfolding get_conn
  ping = do get_conn; sql (do rows ← P.query ping_sql []; first_row rows); pure tt

  abbrev or_now : Option P.DateTime → Sql P.DateTime
  or_now none = run P.utc_now
  or_now (some t) = pure t

  -- `parse_ts`
  unfoldable pub parse_ts : String → Sql P.DateTime
  parse_ts s = or_now (P.parse_from_rfc3339 s)

  -- `row_to_task`
  unfoldable pub row_to_task : Row → Sql (Task P.DateTime)
  unfolding parse_ts
  row_to_task row = do
    status_str ← lift (row "status")
    created_str ← lift (row "created_at")
    updated_str ← lift (row "updated_at")
    id ← lift (row "id")
    title ← lift (row "title")
    description ← lift (row "description")
    owner ← lift (row "owner")
    created_at ← parse_ts created_str
    updated_at ← parse_ts updated_str
    pure (record {
      id = id;
      title = title;
      description = description;
      status = unwrap_or (status_from_str status_str) todo;
      owner = owner;
      created_at = created_at;
      updated_at = updated_at;
    })

  -- `for r in rows { out.push(r?); }`, each row read as the loop comes to it.
  unfoldable pub collect : {A : Type 0} → (Row → Sql A) → List (Except String Row) → Sql (List A)
  collect read [] = pure []
  collect read (r ∷ rs) = do row ← lift r; a ← read row; out ← collect read rs; pure (a ∷ out)

  -- `list_tasks`
  unfoldable pub list_tasks : ℤ → ℤ → App (List (Task P.DateTime))
  list_tasks limit offset = do
    get_conn
    rows ← sql (P.query list_tasks_sql (integer limit ∷ integer offset ∷ []))
    sql (collect row_to_task rows)

  -- `match rows.next()`
  abbrev pub next_task : List (Except String Row) → Sql (Option (Task P.DateTime))
  next_task [] = pure none
  next_task (r ∷ rs) = do row ← lift r; task ← row_to_task row; pure (some task)

  -- `get_task`
  unfoldable pub get_task : String → App (Option (Task P.DateTime))
  get_task id = do get_conn; rows ← sql (P.query get_task_sql (text id ∷ [])); sql (next_task rows)

  -- `create_task`
  unfoldable pub create_task : String → CreateTask → App (Task P.DateTime)
  create_task owner input = do
    now ← run P.utc_now
    id ← run P.new_v4
    let task : Task P.DateTime = record {
      id = id;
      title = trim input.title;
      description = input.description;
      status = unwrap_or input.status todo;
      owner = owner;
      created_at = now;
      updated_at = now;
    }
    get_conn
    sql (
        P.execute insert_task_sql (
          text task.id
          ∷ text task.title
          ∷ text task.description
          ∷ text (status_as_str task.status)
          ∷ text task.owner
          ∷ text (P.to_rfc3339 task.created_at)
          ∷ text (P.to_rfc3339 task.updated_at)
          ∷ []))
    pure task

  -- The three assignments of `update_task`.
  abbrev pub patched : Task P.DateTime → UpdateTask → P.DateTime → Task P.DateTime
  patched existing input now = record existing {
    title = unwrap_or (map_option trim input.title) existing.title;
    description = unwrap_or input.description existing.description;
    status = unwrap_or input.status existing.status;
    updated_at = now;
  }

  -- `update_task`
  unfoldable pub update_task : Task P.DateTime → UpdateTask → App (Task P.DateTime)
  update_task existing input = do
    now ← run P.utc_now
    let updated = patched existing input now
    get_conn
    sql (
        P.execute update_task_sql (
          text updated.title
          ∷ text updated.description
          ∷ text (status_as_str updated.status)
          ∷ text (P.to_rfc3339 updated.updated_at)
          ∷ text updated.id
          ∷ []))
    pure updated

  -- `delete_task`
  unfoldable pub delete_task : String → App Bool
  delete_task id = do get_conn; n ← sql (P.execute delete_task_sql (text id ∷ [])); pure (ltb 0 n)

  -- `record_audit`
  unfoldable pub record_audit : String → String → String → String → String → App Unit
  record_audit actor action entity_type entity_id detail = do
    get_conn
    id ← run P.new_v4
    now ← run P.utc_now
    sql (
        P.execute insert_audit_sql (
          text id
          ∷ text actor
          ∷ text action
          ∷ text entity_type
          ∷ text entity_id
          ∷ text (P.to_rfc3339 now)
          ∷ text detail
          ∷ []))
    pure tt

  -- The closure of `list_audit`.
  unfoldable pub row_to_event : Row → Sql (AuditEvent P.DateTime)
  unfolding parse_ts
  row_to_event row = do
    ts ← lift (row "timestamp")
    id ← lift (row "id")
    actor ← lift (row "actor")
    action ← lift (row "action")
    entity_type ← lift (row "entity_type")
    entity_id ← lift (row "entity_id")
    timestamp ← parse_ts ts
    detail ← lift (row "detail")
    pure (record {
      id = id;
      actor = actor;
      action = action;
      entity_type = entity_type;
      entity_id = entity_id;
      timestamp = timestamp;
      detail = detail;
    })

  -- `list_audit`
  unfoldable pub list_audit : Option String → Option String → ℤ → App (List (AuditEvent P.DateTime))
  list_audit actor action limit = do
    get_conn
    let (statement, binds) = audit_query actor action limit
    rows ← sql (P.query statement (map text binds))
    sql (collect row_to_event rows)
