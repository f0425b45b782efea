-- ===== src/Db/Lawful.antt =====
-- What the program relies on of SQLite and of the other crates: the tables as lists of rows, and
-- the documented meaning of each statement that src/db.rs sends.
pub mod Rows
pub mod Statements
use mathlib.Core.List.{Perm}
use rhel9_app_micro.Prelude.{
  ℕ, String, ◌≡◌, Option, none, some, List, [], ◌∷◌, ◌++◌, map, take, drop, Bool, true,
}
use rhel9_app_micro.Prelude.Int.{ℤ, pos}
use rhel9_app_micro.Outcome.{Except, ok, err}
use rhel9_app_micro.Platform.{Platform, Row, Value, text, integer}
use rhel9_app_micro.Db.Lawful.Statements.{
  ping_statement, list_tasks_statement, get_task_statement, insert_task_statement,
  update_task_statement, delete_task_statement, insert_audit_statement,
}
use rhel9_app_micro.Db.Lawful.Rows.{
  TaskRow, AuditRow, task_columns, audit_columns, task_values, audit_values, Patch, patch_values,
  find_task, find_audit, patch_where, remove_where, IsDescending, matching, IsDescendingAudit,
  audit_select,
}
use rhel9_app_micro.Text.Decimal.{show}

-- The two tables in a state of the world, in the order of insertion.
pub record Tables (P : Platform) : Type 0 where
  pub tasks : P.World → List TaskRow
  pub audits : P.World → List AuditRow

module _ (P : Platform) (T : Tables P) where
  -- Both tables are as they were.
  pub record Same (w w' : P.World) : Type 0 where
    pub tasks : T.tasks w' ≡ T.tasks w
    pub audits : T.audits w' ≡ T.audits w

  -- The rows that a query hands out are those of `columns`, in order, up to the first that cannot
  -- be read.
  abbrev pub Yields : {R : Type 0} → (R → Row) → List (Except String Row) → List R → Type 0
  Yields columns [] [] = Unit
  Yields columns [] (x ∷ xs) = ⊥
  Yields columns (ok row ∷ rs) [] = ⊥
  Yields columns (ok row ∷ rs) (x ∷ xs) = (row ≡ columns x) × Yields columns rs xs
  Yields columns (err e ∷ rs) xs = Unit

  -- A query changes no table, and fails or yields the rows.
  abbrev pub Selects :
      {R : Type 0}
      → (R → Row)
      → List R
      → P.World
      → Except String (List (Except String Row)) × P.World
      → Type 0
  Selects columns xs w (ok rs, w') = Same w w' × Yields columns rs xs
  Selects columns xs w (err e, w') = Same w w'

  -- A statement that fails changes nothing; one that succeeds leaves these rows.
  abbrev pub Writes : List TaskRow → List AuditRow → P.World → Except String ℕ × P.World → Type 0
  Writes tasks audits w (ok n, w') = (T.tasks w' ≡ tasks) × (T.audits w' ≡ audits)
  Writes tasks audits w (err e, w') = Same w w'

  -- An insertion succeeds only with a new id: `id TEXT PRIMARY KEY`.
  abbrev pub Inserts : TaskRow → P.World → Except String ℕ × P.World → Type 0
  Inserts r w (ok n, w') =
      (find_task r.id (T.tasks w) ≡ none)
      × (T.tasks w' ≡ T.tasks w ++ r ∷ [])
      × (T.audits w' ≡ T.audits w)
  Inserts r w (err e, w') = Same w w'

  -- So it is for the audit log: its `id` is a primary key too.
  abbrev pub InsertsEvent : AuditRow → P.World → Except String ℕ × P.World → Type 0
  InsertsEvent e w (ok n, w') =
      (find_audit e.id (T.audits w) ≡ none)
      × (T.tasks w' ≡ T.tasks w)
      × (T.audits w' ≡ T.audits w ++ e ∷ [])
  InsertsEvent e w (err x, w') = Same w w'

  -- The row list as `find_task` gives it: an id is a primary key, so there is at most one.
  abbrev pub found_rows : Option TaskRow → List TaskRow
  found_rows none = []
  found_rows (some r) = r ∷ []

  pub record IsLawful : Type 0 where
    -- Clocks, random numbers, the pool and the token library touch no table.
    pub utc_now : (w : P.World) → Same w (P.utc_now w).1
    pub new_v4 : (w : P.World) → Same w (P.new_v4 w).1
    pub pool_get : (w : P.World) → Same w (P.pool_get w).1
    pub instant_now : (w : P.World) → Same w (P.instant_now w).1
    pub monotonic_now : (w : P.World) → Same w (P.monotonic_now w).1
    pub elapsed : (start : P.Monotonic) (w : P.World) → Same w (P.elapsed start w).1
    pub jwt_decode :
        (token secret : String) (w : P.World)
        → Same w (P.jwt_decode token secret (record { validate_exp = true }) w).1
    pub ping : (w : P.World) → Same w (P.query ping_statement [] w).1
    pub get_task :
        (id : String) (w : P.World)
        → Selects task_columns
            (found_rows (find_task id (T.tasks w)))
            w
            (P.query get_task_statement (text id ∷ []) w)
    -- `ORDER BY created_at DESC` leaves the order of equal keys open.
    pub list_tasks :
        (limit offset : ℕ) (w : P.World)
        → (ordered : List TaskRow) × Perm ordered (T.tasks w)
          × IsDescending ordered
          × Selects task_columns
              (take limit (drop offset ordered))
              w
              (P.query list_tasks_statement (integer (pos limit) ∷ integer (pos offset) ∷ []) w)
    pub list_audit :
        (actor action : Option String) (limit : ℕ) (w : P.World)
        → (ordered : List AuditRow) × Perm ordered (matching actor action (T.audits w))
          × IsDescendingAudit ordered
          × Selects audit_columns (take limit ordered) w (
              P.query
                (audit_select actor action (show limit)).0
                (map text (audit_select actor action (show limit)).1)
                w)
    pub insert_task :
        (r : TaskRow) (w : P.World)
        → Inserts r w (P.execute insert_task_statement (task_values r) w)
    pub update_task :
        (id : String) (p : Patch) (w : P.World)
        → Writes
            (patch_where id p (T.tasks w))
            (T.audits w)
            w
            (P.execute update_task_statement (patch_values id p) w)
    pub delete_task :
        (id : String) (w : P.World)
        → Writes
            (remove_where id (T.tasks w))
            (T.audits w)
            w
            (P.execute delete_task_statement (text id ∷ []) w)
    pub insert_audit :
        (e : AuditRow) (w : P.World)
        → InsertsEvent e w (P.execute insert_audit_statement (audit_values e) w)
