-- ===== src/Db/Sql.antt =====
-- The texts of the SQL statements of src/db.rs, and the one that is put together at run time.
use rhel9_app_micro.Prelude.{◌+◌, String, ◌<>◌, Option, none, some, List, [], ◌∷◌, ◌++◌, length}
use rhel9_app_micro.Prelude.Int.{ℤ}
use rhel9_app_micro.Text.Decimal.{show, show_ℤ}

abbrev pub schema_sql : String
schema_sql =
    "\n        PRAGMA foreign_keys = ON;\n\n" <> "        CREATE TABLE IF NOT EXISTS task (\n"
    <> "            id           TEXT PRIMARY KEY,\n" <> "            title        TEXT NOT NULL,\n"
    <> "            description  TEXT NOT NULL DEFAULT '',\n"
    <> "            status       TEXT NOT NULL DEFAULT 'todo',\n"
    <> "            owner        TEXT NOT NULL,\n" <> "            created_at   TEXT NOT NULL,\n"
    <> "            updated_at   TEXT NOT NULL\n        );\n\n"
    <> "        CREATE INDEX IF NOT EXISTS idx_task_owner ON task(owner);\n\n"
    <> "        CREATE TABLE IF NOT EXISTS audit_event (\n"
    <> "            id           TEXT PRIMARY KEY,\n" <> "            actor        TEXT NOT NULL,\n"
    <> "            action       TEXT NOT NULL,\n" <> "            entity_type  TEXT NOT NULL,\n"
    <> "            entity_id    TEXT NOT NULL,\n" <> "            timestamp    TEXT NOT NULL,\n"
    <> "            detail       TEXT NOT NULL DEFAULT ''\n        );\n\n"
    <> "        CREATE INDEX IF NOT EXISTS idx_audit_actor  ON audit_event(actor);\n"
    <> "        CREATE INDEX IF NOT EXISTS idx_audit_action ON audit_event(action);\n        "

abbrev pub ping_sql : String
ping_sql = "SELECT 1"

abbrev pub list_tasks_sql : String
list_tasks_sql =
    "SELECT id, title, description, status, owner, created_at, updated_at "
    <> "FROM task ORDER BY created_at DESC LIMIT ?1 OFFSET ?2"

abbrev pub get_task_sql : String
get_task_sql =
    "SELECT id, title, description, status, owner, created_at, updated_at "
    <> "FROM task WHERE id = ?1"

abbrev pub insert_task_sql : String
insert_task_sql =
    "INSERT INTO task (id, title, description, status, owner, created_at, updated_at) "
    <> "VALUES (?1, ?2, ?3, ?4, ?5, ?6, ?7)"

abbrev pub update_task_sql : String
update_task_sql =
    "UPDATE task SET title = ?1, description = ?2, status = ?3, updated_at = ?4 " <> "WHERE id = ?5"

abbrev pub delete_task_sql : String
delete_task_sql = "DELETE FROM task WHERE id = ?1"

abbrev pub insert_audit_sql : String
insert_audit_sql =
    "INSERT INTO audit_event (id, actor, action, entity_type, entity_id, timestamp, detail) "
    <> "VALUES (?1, ?2, ?3, ?4, ?5, ?6, ?7)"

abbrev pub select_audit_sql : String
select_audit_sql =
    "SELECT id, actor, action, entity_type, entity_id, timestamp, detail "
    <> "FROM audit_event WHERE 1=1"

-- A statement under construction: its text, and the values bound so far.
abbrev pub Query : Type 0
Query = String × List String

-- One `if let` of `list_audit`, for the column `column`.
unfoldable pub add_filter : String → Option String → Query → Query
add_filter column none (statement, binds) = (statement, binds)
add_filter column (some a) (statement, binds) =
    (statement <> " AND " <> column <> " = ?" <> show (length binds + 1), binds ++ a ∷ [])

abbrev add_limit : ℤ → Query → Query
add_limit limit (statement, binds) = (
  statement <> " ORDER BY timestamp DESC LIMIT ?" <> show (length binds + 1),
  binds ++ show_ℤ limit ∷ [],
)

-- The part of `list_audit` that builds the statement and its binds.
unfoldable pub audit_query : Option String → Option String → ℤ → Query
unfolding add_filter show show_ℤ
audit_query actor action limit =
    add_limit limit (add_filter "action" action (add_filter "actor" actor (select_audit_sql, [])))
