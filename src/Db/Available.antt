-- ===== src/Db/Available.antt =====
-- The queries of src/db.rs succeed where the database is up.
use mathlib.Core.Path.{subst}
use rhel9_app_micro.Prelude.{
  refl, String, ◌≡◌, inl, inr, Option, Option-cases, none, some, unwrap_or, List, [], ◌∷◌,
}
use rhel9_app_micro.Outcome.{Except, ok, IsOk, bind-IsOk, map_err-IsOk, map_err-ok}
use rhel9_app_micro.Text.{trim}
use rhel9_app_micro.Models.{todo, Task, CreateTask, UpdateTask}
use rhel9_app_micro.Errors.{from_rusqlite, from_r2d2}
use rhel9_app_micro.Platform.{Platform, Row, text}
use rhel9_app_micro.Db.{
  get_conn, parse_ts, row_to_task, get_task, next_task, sql, get_task_sql, create_task, update_task,
  delete_task, record_audit, insert_task_sql, update_task_sql, delete_task_sql, insert_audit_sql,
  patched,
}
use rhel9_app_micro.Db.Lawful.{Tables, found_rows, IsLawful}
use rhel9_app_micro.Db.Lawful.Statements.{
  get_task_statement, insert_task_statement, update_task_statement, delete_task_statement,
  insert_audit_statement,
}
use rhel9_app_micro.Db.Lawful.Rows.{
  TaskRow, AuditRow, Patch, task_columns, find_task, find_audit, task_values, patch_values,
  audit_values,
}
use rhel9_app_micro.Db.Reads.{Connects, get_conn-Connects}
use rhel9_app_micro.Db.Outcomes.{task_row, task_patch}

-- A query's rows, all of them readable.
abbrev pub readable : {R : Type 0} → (R → Row) → List R → List (Except String Row)
readable columns [] = []
readable columns (x ∷ xs) = ok (columns x) ∷ readable columns xs

module _ (P : Platform) (T : Tables P) where
  -- The pool has connections, and a task is looked up without an error.
  pub record IsReadable : Type 0 where
    pub pool_get : (w : P.World) → IsOk (P.pool_get w).0
    pub get_task :
        (id : String) (w : P.World)
        → (P.query get_task_statement (text id ∷ []) w).0
          ≡ ok (readable task_columns (found_rows P T (find_task id (T.tasks w))))

  -- The database answers: it is readable, and each statement that meets the constraints of its
  -- table, a new primary key among them, is carried out.
  pub record IsAvailable : Type 0 where
    pub reads : IsReadable
    pub insert_task :
        (r : TaskRow) (w : P.World)
        → find_task r.id (T.tasks w) ≡ none
        → IsOk (P.execute insert_task_statement (task_values r) w).0
    pub update_task :
        (id : String) (p : Patch) (w : P.World)
        → IsOk (P.execute update_task_statement (patch_values id p) w).0
    pub delete_task :
        (id : String) (w : P.World) → IsOk (P.execute delete_task_statement (text id ∷ []) w).0
    pub insert_audit :
        (e : AuditRow) (w : P.World)
        → find_audit e.id (T.audits w) ≡ none
        → IsOk (P.execute insert_audit_statement (audit_values e) w).0

  -- The id that `record_audit` draws for its event.
  abbrev pub event_id : P.World → String
  event_id w = (P.new_v4 (get_conn P w).1).0

  module _ (A : IsReadable) where
    get_conn-IsOk : (w : P.World) → IsOk (get_conn P w).0
    unfolding get_conn
    get_conn-IsOk w = map_err-IsOk from_r2d2 P.pool_get w (A.pool_get w)

    parse_ts-IsOk : (s : String) (w : P.World) → IsOk (parse_ts P s w).0
    unfolding parse_ts
    parse_ts-IsOk s w = elim (Option-cases (P.parse_from_rfc3339 s)) [
      | inl e ↦ rw e tt
      | inr (t, e) ↦ rw e tt
    ]

    row_to_task-IsOk : (r : TaskRow) (w : P.World) → IsOk (row_to_task P (task_columns r) w).0
    unfolding row_to_task task_columns
    row_to_task-IsOk r w =
        bind-IsOk (parse_ts P r.created_at) _ w (λ x. Unit) tt (parse_ts-IsOk r.created_at w)
          λ c w₁ q.
            bind-IsOk (parse_ts P r.updated_at) _ w₁ (λ x. Unit) tt (parse_ts-IsOk r.updated_at w₁)
              (λ u w₂ k. tt)

    next_task-IsOk :
        (o : Option TaskRow) (w : P.World)
        → IsOk (next_task P (readable task_columns (found_rows P T o)) w).0
    next_task-IsOk none w = tt
    next_task-IsOk (some r) w =
        bind-IsOk (row_to_task P (task_columns r)) _ w (λ x. Unit) tt (row_to_task-IsOk r w)
          (λ t w' q. tt)

    -- The task of an id is read without an error.
    pub get_task-IsOk : (id : String) (w : P.World) → IsOk (get_task P id w).0
    unfolding get_task
    get_task-IsOk id w =
        bind-IsOk (get_conn P) _ w (λ x. Unit) tt (get_conn-IsOk w)
          λ _ w₁ q.
            let rows = readable task_columns (found_rows P T (find_task id (T.tasks w₁))) in
            let found =
              map_err-ok from_rusqlite (P.query get_task_sql (text id ∷ [])) w₁ rows
                (A.get_task id w₁) in
            bind-IsOk (sql P (P.query get_task_sql (text id ∷ []))) _ w₁ (λ x. x.0 ≡ ok rows) found
              (rw found tt)
              (λ rs w₂ e.
                let same : rs ≡ rows = cc in
                rw same (
                  map_err-IsOk from_rusqlite (next_task P rows) w₂
                    (next_task-IsOk (find_task id (T.tasks w₁)) w₂)))

  module _ (L : IsLawful P T) (A : IsAvailable) where
    -- A creation succeeds, if the new id is not in use.
    pub create_task-IsOk :
        (owner : String) (input : CreateTask) (w : P.World)
        → find_task (P.new_v4 (P.utc_now w).1).0 (T.tasks w) ≡ none
        → IsOk (create_task P owner input w).0
    unfolding create_task
    create_task-IsOk owner input w fresh =
        bind-IsOk (get_conn P) _ start (Connects P T start) (get_conn-Connects P T L start)
          (get_conn-IsOk A.reads start)
          (λ _ w₁ h.
            bind-IsOk (sql P (P.execute insert_task_sql (task_values (task_row P task)))) _ w₁
              (λ x. Unit) tt
              (map_err-IsOk from_rusqlite
                (P.execute insert_task_sql (task_values (task_row P task))) w₁
                (A.insert_task (task_row P task) w₁
                  (rw (h.tasks, (L.new_v4 (P.utc_now w).1).tasks, (L.utc_now w).tasks) fresh)))
              (λ n w₂ q. tt))
      where
        start : P.World
        start = (P.new_v4 (P.utc_now w).1).1

        task : Task P.DateTime
        task = record {
          id = (P.new_v4 (P.utc_now w).1).0;
          title = trim input.title;
          description = input.description;
          status = unwrap_or input.status todo;
          owner = owner;
          created_at = (P.utc_now w).0;
          updated_at = (P.utc_now w).0;
        }

    pub update_task-IsOk :
        (existing : Task P.DateTime) (input : UpdateTask) (w : P.World)
        → IsOk (update_task P existing input w).0
    unfolding update_task
    update_task-IsOk existing input w =
        bind-IsOk (get_conn P) _ (P.utc_now w).1 (λ x. Unit) tt
          (get_conn-IsOk A.reads (P.utc_now w).1)
          (λ _ w₁ h.
            let t = patched P existing input (P.utc_now w).0 in
            bind-IsOk (sql P (P.execute update_task_sql (patch_values t.id (task_patch P t)))) _ w₁
              (λ x. Unit) tt
              (map_err-IsOk from_rusqlite
                (P.execute update_task_sql (patch_values t.id (task_patch P t))) w₁
                (A.update_task t.id (task_patch P t) w₁))
              (λ n w₂ q. tt))

    pub delete_task-IsOk : (id : String) (w : P.World) → IsOk (delete_task P id w).0
    unfolding delete_task
    delete_task-IsOk id w =
        bind-IsOk (get_conn P) _ w (λ x. Unit) tt (get_conn-IsOk A.reads w)
          λ _ w₁ h.
            bind-IsOk (sql P (P.execute delete_task_sql (text id ∷ []))) _ w₁ (λ x. Unit) tt
              (map_err-IsOk from_rusqlite (P.execute delete_task_sql (text id ∷ [])) w₁
                (A.delete_task id w₁))
              (λ n w₂ q. tt)

    -- An event is stored, if its new id is not in use.
    pub record_audit-IsOk :
        (actor action entity_type entity_id detail : String) (w : P.World)
        → find_audit (event_id w) (T.audits w) ≡ none
        → IsOk (record_audit P actor action entity_type entity_id detail w).0
    unfolding record_audit
    record_audit-IsOk actor action entity_type entity_id detail w fresh =
        bind-IsOk (get_conn P) _ w (λ x. Connects P T w x × (get_conn P w ≡ x))
          (get_conn-Connects P T L w, refl) (get_conn-IsOk A.reads w)
          λ _ w₁ h.
            let (id, w₂) = P.new_v4 w₁ in
            let (now, w₃) = P.utc_now w₂ in
            let e : AuditRow = record {
              id = id;
              actor = actor;
              action = action;
              entity_type = entity_type;
              entity_id = entity_id;
              timestamp = P.to_rfc3339 now;
              detail = detail;
            } in
            let unused : find_audit id (T.audits w₁) ≡ none =
              rw (h.0.audits)
                (subst (λ x. find_audit (P.new_v4 x.1).0 (T.audits w) ≡ none) h.1 fresh) in
            bind-IsOk (sql P (P.execute insert_audit_sql (audit_values e))) _ w₃ (λ x. Unit) tt
              (map_err-IsOk from_rusqlite (P.execute insert_audit_sql (audit_values e)) w₃
                (A.insert_audit e w₃ (rw ((L.utc_now w₂).audits, (L.new_v4 w₁).audits) unused)))
              (λ n w₄ q. tt)
