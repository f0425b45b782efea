-- ===== src/Db/Lawful/Statements.antt =====
-- The statements of src/db.rs whose meaning Db/Lawful assumes, written out: a law is about a text of
-- SQL and not about whatever text the code sends.
use rhel9_app_micro.Prelude.{String}

abbrev pub ping_statement : String
ping_statement = "SELECT 1"

abbrev pub list_tasks_statement : String
list_tasks_statement =
    "SELECT id, title, description, status, owner, created_at, updated_at FROM task ORDER BY created_at DESC LIMIT ?1 OFFSET ?2"

abbrev pub get_task_statement : String
get_task_statement =
    "SELECT id, title, description, status, owner, created_at, updated_at FROM task WHERE id = ?1"

abbrev pub insert_task_statement : String
insert_task_statement =
    "INSERT INTO task (id, title, description, status, owner, created_at, updated_at) VALUES (?1, ?2, ?3, ?4, ?5, ?6, ?7)"

abbrev pub update_task_statement : String
update_task_statement =
    "UPDATE task SET title = ?1, description = ?2, status = ?3, updated_at = ?4 WHERE id = ?5"

abbrev pub delete_task_statement : String
delete_task_statement = "DELETE FROM task WHERE id = ?1"

abbrev pub insert_audit_statement : String
insert_audit_statement =
    "INSERT INTO audit_event (id, actor, action, entity_type, entity_id, timestamp, detail) VALUES (?1, ?2, ?3, ?4, ?5, ?6, ?7)"
