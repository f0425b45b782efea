-- ===== src/Db/Writes.antt =====
-- What the writing functions of src/db.rs leave in the tables, over a lawful database.
use rhel9_app_micro.Prelude.{ℕ, String, refl, List, [], ◌∷◌, unwrap_or}
use rhel9_app_micro.Outcome.{Except, ok, err, bind-ensures, map_err-ensures}
use rhel9_app_micro.Text.{trim}
use rhel9_app_micro.Models.{Task, todo, CreateTask, UpdateTask}
use rhel9_app_micro.Errors.{AppError, from_rusqlite}
use rhel9_app_micro.Platform.{Platform, text}
use rhel9_app_micro.Db.{
  Sql, get_conn, sql, create_task, patched, update_task, delete_task, record_audit, insert_task_sql,
  update_task_sql, delete_task_sql, insert_audit_sql,
}
use rhel9_app_micro.Db.Lawful.{Tables, Same, Writes, Inserts, InsertsEvent, IsLawful}
use rhel9_app_micro.Db.Lawful.Rows.{
  TaskRow, AuditRow, task_values, audit_values, patch_values, patch_where, remove_where,
}
use rhel9_app_micro.Db.Reads.{Same-trans, Connects, get_conn-Connects}
use rhel9_app_micro.Db.Outcomes.{
  task_row, task_patch, IsNew, IsEvent, Creates, Updates, Deletes, Logs, WritesApp, InsertsApp,
  InsertsEventApp,
}

module _ (P : Platform) (T : Tables P) where
  module _ (L : IsLawful P T) where
    -- Taking a connection in a world `w₁` with the tables of `w`.
    get_conn-from : (w w₁ : P.World) → Same P T w w₁ → Connects P T w (get_conn P w₁)
    get_conn-from w w₁ h = go (get_conn P w₁) (get_conn-Connects P T L w₁)
      where
        go : (r : Except AppError Unit × P.World) → Connects P T w₁ r → Connects P T w r
        go (ok a, w') k = Same-trans P T h k
        go (err e, w') k = (Same-trans P T h k.0, k.1)

    -- A new task is stored in one row, with a new id; a failure stores nothing.
    pub create_task-Creates :
        (owner : String) (input : CreateTask) (w : P.World)
        → Creates P T owner input w (create_task P owner input w)
    unfolding create_task from_rusqlite
    create_task-Creates owner input w =
        bind-ensures (get_conn P) _ start (Connects P T w) (Creates P T owner input w)
          (get_conn-from w start started)
          (λ _ w₁ h₁.
            bind-ensures (sql P (P.execute insert_task_sql (task_values (task_row P task)))) _ w₁
              (InsertsApp P T (task_row P task) w) (Creates P T owner input w)
              (map_err-ensures from_rusqlite
                (P.execute insert_task_sql (task_values (task_row P task))) w₁
                (Inserts P T (task_row P task) w₁) (InsertsApp P T (task_row P task) w)
                (L.insert_task (task_row P task) w₁)
                (λ n w₂ h₂. (rw h₁.tasks at h₂.0, rw h₁.tasks at h₂.1, rw h₁.audits at h₂.2))
                (λ e w₂ h₂. (Same-trans P T h₁ h₂, tt)))
              (λ n w₂ h₂. (is_new, h₂.0, h₂.1, h₂.2)) (λ e w₂ h₂. h₂))
          (λ e w₁ h₁. h₁)
      where
        now : P.DateTime
        now = (P.utc_now w).0

        start : P.World
        start = (P.new_v4 (P.utc_now w).1).1

        started : Same P T w start
        started = Same-trans P T (L.utc_now w) (L.new_v4 (P.utc_now w).1)

        task : Task P.DateTime
        task = record {
          id = (P.new_v4 (P.utc_now w).1).0;
          title = trim input.title;
          description = input.description;
          status = unwrap_or input.status todo;
          owner = owner;
          created_at = now;
          updated_at = now;
        }

        is_new : IsNew P owner input task
        is_new = record {
          title = refl;
          description = refl;
          status = refl;
          owner_kept = refl;
          stamped = refl;
          drawn = ((P.utc_now w).1, refl);
        }

    -- A statement under `?`, sent from a world `w₁` with the tables of `w`.
    sql-Writes :
        (m : Sql P ℕ) (tasks : List TaskRow) (audits : List AuditRow) (w w₁ : P.World)
        → Same P T w w₁
        → Writes P T tasks audits w₁ (m w₁)
        → WritesApp P T tasks audits w (sql P m w₁)
    unfolding from_rusqlite
    sql-Writes m tasks audits w w₁ h law =
        map_err-ensures from_rusqlite m w₁ (Writes P T tasks audits w₁)
          (WritesApp P T tasks audits w) law (λ n w₂ h₂. h₂) (λ e w₂ h₂. (Same-trans P T h h₂, tt))

    -- An update writes the changed columns to the row of the task's id, and to no other row.
    pub update_task-Updates :
        (existing : Task P.DateTime) (input : UpdateTask) (w : P.World)
        → Updates P T existing input w (update_task P existing input w)
    unfolding update_task
    update_task-Updates existing input w =
        bind-ensures (get_conn P) _ start (Connects P T w) (Updates P T existing input w)
          (get_conn-from w start (L.utc_now w))
          (λ _ w₁ h₁.
            bind-ensures
              (sql P (P.execute update_task_sql (patch_values existing.id (task_patch P task)))) _
              w₁
              (WritesApp P T (patch_where existing.id (task_patch P task) (T.tasks w)) (T.audits w)
                w)
              (Updates P T existing input w)
              (sql-Writes (P.execute update_task_sql (patch_values existing.id (task_patch P task)))
                _ _ w w₁ h₁
                (rw (h₁.tasks, h₁.audits) at (L.update_task existing.id (task_patch P task) w₁)))
              (λ n w₂ h₂. (refl, h₂.0, h₂.1)) (λ e w₂ h₂. h₂))
          (λ e w₁ h₁. h₁)
      where
        start : P.World
        start = (P.utc_now w).1

        task : Task P.DateTime
        task = patched P existing input (P.utc_now w).0

    -- A deletion removes the rows with that id, and no others.
    pub delete_task-Deletes : (id : String) (w : P.World) → Deletes P T id w (delete_task P id w)
    unfolding delete_task
    delete_task-Deletes id w =
        bind-ensures (get_conn P) _ w (Connects P T w) (Deletes P T id w)
          (get_conn-Connects P T L w)
          (λ _ w₁ h₁.
            bind-ensures (sql P (P.execute delete_task_sql (text id ∷ []))) _ w₁
              (WritesApp P T (remove_where id (T.tasks w)) (T.audits w) w) (Deletes P T id w)
              (sql-Writes (P.execute delete_task_sql (text id ∷ [])) _ _ w w₁ h₁
                (rw (h₁.tasks, h₁.audits) at (L.delete_task id w₁)))
              (λ n w₂ h₂. h₂) (λ e w₂ h₂. h₂))
          (λ e w₁ h₁. h₁)

    sql-InsertsEvent :
        (e : AuditRow) (w w₁ : P.World)
        → Same P T w w₁
        → InsertsEventApp P T e w (sql P (P.execute insert_audit_sql (audit_values e)) w₁)
    unfolding from_rusqlite
    sql-InsertsEvent e w w₁ h =
        map_err-ensures from_rusqlite (P.execute insert_audit_sql (audit_values e)) w₁
          (InsertsEvent P T e w₁) (InsertsEventApp P T e w) (L.insert_audit e w₁)
          (λ n w₂ h₂. rw (h.tasks, h.audits) at h₂) (λ x w₂ h₂. (Same-trans P T h h₂, tt))

    -- `record_audit` adds one event at the end of the log, or fails and adds none.
    pub record_audit-Logs :
        (actor action entity_type entity_id detail : String) (w : P.World)
        → Logs P T actor action entity_type entity_id detail w
            (record_audit P actor action entity_type entity_id detail w)
    unfolding record_audit
    record_audit-Logs actor action entity_type entity_id detail w =
        bind-ensures (get_conn P) _ w (Connects P T w)
          (Logs P T actor action entity_type entity_id detail w) (get_conn-Connects P T L w)
          (λ _ w₁ h₁.
            bind-ensures (sql P (P.execute insert_audit_sql (audit_values (event w₁)))) _ (later w₁)
              (InsertsEventApp P T (event w₁) w)
              (Logs P T actor action entity_type entity_id detail w)
              (sql-InsertsEvent (event w₁) w (later w₁) (Same-trans P T h₁ (drawn w₁)))
              (λ n w₂ h₂. (h₂.1, (event w₁, is_event w₁, h₂.2, ((w₁, refl), h₂.0))))
              (λ e w₂ h₂. h₂))
          (λ e w₁ h₁. h₁)
      where
        later : P.World → P.World
        later w₁ = (P.utc_now (P.new_v4 w₁).1).1

        drawn : (w₁ : P.World) → Same P T w₁ (later w₁)
        drawn w₁ = Same-trans P T (L.new_v4 w₁) (L.utc_now (P.new_v4 w₁).1)

        event : P.World → AuditRow
        event w₁ = record {
          id = (P.new_v4 w₁).0;
          actor = actor;
          action = action;
          entity_type = entity_type;
          entity_id = entity_id;
          timestamp = P.to_rfc3339 (P.utc_now (P.new_v4 w₁).1).0;
          detail = detail;
        }

        is_event : (w₁ : P.World) → IsEvent P actor action entity_type entity_id detail (event w₁)
        is_event w₁ = record {
          by = refl;
          did = refl;
          on_type = refl;
          on_id = refl;
          with_detail = refl;
        }
