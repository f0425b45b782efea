-- ===== src/Memory/Lawful.antt =====
-- The in-memory platform meets the assumptions on SQLite and the crates.
use rhel9_app_micro.Prelude.{ℕ, String, ◌≡◌, refl, Option, none, some, List, [], ◌∷◌, map, take}
use rhel9_app_micro.Platform.{Row, text}
use rhel9_app_micro.Text.Digits.{digits_value-show}
use rhel9_app_micro.Db.Lawful.{
  Tables, Same, Yields, Selects, Inserts, found_rows, IsLawful, InsertsEvent,
}
use rhel9_app_micro.Text.Decimal.{show}
use rhel9_app_micro.Db.Lawful.Rows.{
  audit_select, TaskRow, AuditRow, task_columns, audit_columns, find_task, find_audit, IsDescending,
  IsDescendingAudit, matching,
}
use rhel9_app_micro.Memory.{
  Disk, memory, insert_row, insert_event, found, rows_of, mem_query, is_audit_query, select_audit,
}
use rhel9_app_micro.Memory.Sorting.{sort, sort-perm, Falling, sort-Falling}

abbrev pub on_disk : Tables memory
on_disk = record { tasks = λ d. d.tasks; audits = λ d. d.audits }

pub same : (d : Disk) → Same memory on_disk d d
same d = record { tasks = refl; audits = refl }

found-Yields :
    (o : Option TaskRow)
    → Yields memory on_disk task_columns (found o) (found_rows memory on_disk o)
found-Yields none = tt
found-Yields (some r) = (refl, tt)

rows_of-Yields :
    {R : Type 0} (columns : R → Row) (xs : List R)
    → Yields memory on_disk columns (rows_of columns xs) xs
rows_of-Yields columns [] = tt
rows_of-Yields columns (x ∷ xs) = (refl, rows_of-Yields columns xs)

audit-Selects :
    (actor action : Option String) (limit : ℕ) (d : Disk)
    → Selects memory on_disk audit_columns
        (take limit (sort (λ (e : AuditRow). e.timestamp) (matching actor action d.audits)))
        d
        (mem_query
          (audit_select actor action (show limit)).0
          (map text (audit_select actor action (show limit)).1)
          d)
unfolding select_audit is_audit_query
audit-Selects none none limit d =
    (same d, rw (digits_value-show limit) (rows_of-Yields audit_columns _))
audit-Selects none (some b) limit d =
    (same d, rw (digits_value-show limit) (rows_of-Yields audit_columns _))
audit-Selects (some a) none limit d =
    (same d, rw (digits_value-show limit) (rows_of-Yields audit_columns _))
audit-Selects (some a) (some b) limit d =
    (same d, rw (digits_value-show limit) (rows_of-Yields audit_columns _))

insert_row-Inserts :
    (r : TaskRow) (d : Disk) (o : Option TaskRow)
    → find_task r.id d.tasks ≡ o
    → Inserts memory on_disk r d (insert_row r d o)
insert_row-Inserts r d none f = (f, refl, refl)
insert_row-Inserts r d (some old) f = same d

insert_event-InsertsEvent :
    (e : AuditRow) (d : Disk) (o : Option AuditRow)
    → find_audit e.id d.audits ≡ o
    → InsertsEvent memory on_disk e d (insert_event e d o)
insert_event-InsertsEvent e d none f = (f, refl, refl)
insert_event-InsertsEvent e d (some old) f = same d

falling_tasks :
    (rows : List TaskRow) → Falling (λ (r : TaskRow). r.created_at) rows → IsDescending rows
falling_tasks [] h = tt
falling_tasks (r ∷ []) h = tt
falling_tasks (r ∷ s ∷ rows) h = (h.0, falling_tasks (s ∷ rows) h.1)

falling_audits :
    (rows : List AuditRow) → Falling (λ (r : AuditRow). r.timestamp) rows → IsDescendingAudit rows
falling_audits [] h = tt
falling_audits (r ∷ []) h = tt
falling_audits (r ∷ s ∷ rows) h = (h.0, falling_audits (s ∷ rows) h.1)

pub memory-IsLawful : IsLawful memory on_disk
unfolding is_audit_query
memory-IsLawful = record {
  utc_now = λ d. record { tasks = refl; audits = refl };
  new_v4 = λ d. record { tasks = refl; audits = refl };
  pool_get = same;
  instant_now = same;
  monotonic_now = same;
  elapsed = λ start d. same d;
  jwt_decode = λ token secret d. same d;
  ping = same;
  get_task = λ id d. (same d, found-Yields (find_task id d.tasks));
  list_tasks = λ limit offset d. (
    sort (λ (r : TaskRow). r.created_at) d.tasks,
    sort-perm (λ (r : TaskRow). r.created_at) d.tasks,
    falling_tasks _ (sort-Falling (λ (r : TaskRow). r.created_at) d.tasks),
    (same d, rows_of-Yields task_columns _),
  );
  list_audit = λ actor action limit d. (
    sort (λ (r : AuditRow). r.timestamp) (matching actor action d.audits),
    sort-perm (λ (r : AuditRow). r.timestamp) (matching actor action d.audits),
    falling_audits _
        (sort-Falling (λ (r : AuditRow). r.timestamp) (matching actor action d.audits)),
    audit-Selects actor action limit d,
  );
  insert_task = λ r d. insert_row-Inserts r d (find_task r.id d.tasks) refl;
  update_task = λ id p d. (refl, refl);
  delete_task = λ id d. (refl, refl);
  insert_audit = λ e d. insert_event-InsertsEvent e d (find_audit e.id d.audits) refl;
}
