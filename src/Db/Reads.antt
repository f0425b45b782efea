-- ===== src/Db/Reads.antt =====
-- What the reading functions of src/db.rs return, over a lawful database.
use rhel9_app_micro.Prelude.{
  inl, inr, Option-cases, String, ◌≡◌, refl, ◌∙◌, Option, none, some, List, [], ◌∷◌, unwrap_or,
}
use rhel9_app_micro.Outcome.{Except, ok, err, bind-ensures, map_err-ensures}
use rhel9_app_micro.Models.{Task, todo, status_from_str}
use rhel9_app_micro.Errors.{AppError, IsInternal, from_rusqlite, from_r2d2}
use rhel9_app_micro.Platform.{Platform, Row, text}
use rhel9_app_micro.Db.{
  Sql, get_conn, parse_ts, row_to_task, get_task, next_task, sql, get_task_sql,
}
use rhel9_app_micro.Db.Lawful.{Tables, Same, Yields, Selects, found_rows, IsLawful}
use rhel9_app_micro.Db.Lawful.Rows.{TaskRow, task_columns, find_task}

module _ (P : Platform) where
  -- A task as it is read from its row.
  pub record Decodes (r : TaskRow) (t : Task P.DateTime) : Type 0 where
    pub id : t.id ≡ r.id
    pub title : t.title ≡ r.title
    pub description : t.description ≡ r.description
    pub status : t.status ≡ unwrap_or (status_from_str r.status) todo
    pub owner : t.owner ≡ r.owner
    pub created_at :
        (c : P.DateTime) → P.parse_from_rfc3339 r.created_at ≡ some c → t.created_at ≡ c
    pub updated_at :
        (c : P.DateTime) → P.parse_from_rfc3339 r.updated_at ≡ some c → t.updated_at ≡ c

module _ (P : Platform) (T : Tables P) where
  pub Same-refl : (w : P.World) → Same P T w w
  Same-refl w = record { tasks = refl; audits = refl }

  pub Same-trans : {u v w : P.World} → Same P T u v → Same P T v w → Same P T u w
  Same-trans h k = record { tasks = k.tasks ∙ h.tasks; audits = k.audits ∙ h.audits }

  -- The outcome of reading a time.
  abbrev pub ParsesTs : String → P.World → Except String P.DateTime × P.World → Type 0
  ParsesTs s w (ok t, w') =
      Same P T w w' × ((c : P.DateTime) → P.parse_from_rfc3339 s ≡ some c → t ≡ c)
  ParsesTs s w (err e, w') = Same P T w w'

  -- The outcome of reading one row: no table changes, and the task is that of the row.
  abbrev pub ReadsRow : TaskRow → P.World → Except String (Task P.DateTime) × P.World → Type 0
  ReadsRow r w (ok t, w') = Same P T w w' × Decodes P r t
  ReadsRow r w (err e, w') = Same P T w w'

  -- A failure of the database: an internal error, and no table changed.
  abbrev pub Fails : P.World → AppError → P.World → Type 0
  Fails w e w' = Same P T w w' × IsInternal e

  -- The outcome of taking a connection.
  abbrev pub Connects : {A : Type 0} → P.World → Except AppError A × P.World → Type 0
  Connects w (ok a, w') = Same P T w w'
  Connects w (err e, w') = Fails w e w'

  -- The outcome of a SELECT under `?`.
  abbrev pub SelectsApp :
      {R : Type 0}
      → (R → Row)
      → List R
      → P.World
      → Except AppError (List (Except String Row)) × P.World
      → Type 0
  SelectsApp columns xs w (ok rs, w') = Same P T w w' × Yields P T columns rs xs
  SelectsApp columns xs w (err e, w') = Fails w e w'

  -- The outcome of `get_task`.
  abbrev pub ReadsTask :
      String → P.World → Except AppError (Option (Task P.DateTime)) × P.World → Type 0
  ReadsTask id w (ok none, w') = Same P T w w' × (find_task id (T.tasks w) ≡ none)
  ReadsTask id w (ok (some t), w') =
      Same P T w w' × ((r : TaskRow) × (find_task id (T.tasks w) ≡ some r) × Decodes P r t)
  ReadsTask id w (err e, w') = Fails w e w'

  -- The same of the part behind the query.
  abbrev Reads : String → P.World → Except String (Option (Task P.DateTime)) × P.World → Type 0
  Reads id w (ok none, w') = Same P T w w' × (find_task id (T.tasks w) ≡ none)
  Reads id w (ok (some t), w') =
      Same P T w w' × ((r : TaskRow) × (find_task id (T.tasks w) ≡ some r) × Decodes P r t)
  Reads id w (err e, w') = Same P T w w'

  module _ (L : IsLawful P T) where
    -- Nothing is written, whatever the outcome.
    abbrev pub Quiet : {E A : Type 0} → P.World → Except E A × P.World → Type 0
    Quiet w r = Same P T w r.1

    pub get_conn-Connects : (w : P.World) → Connects w (get_conn P w)
    unfolding get_conn from_r2d2
    get_conn-Connects w =
        map_err-ensures from_r2d2 P.pool_get w (Quiet w) (Connects w) (L.pool_get w) (λ a w' h. h)
          (λ e w' h. (h, tt))

    -- `parse_ts` gives the time that the text stands for, and reads the clock only if there is none.
    pub parse_ts-ParsesTs : (s : String) (w : P.World) → ParsesTs s w (parse_ts P s w)
    unfolding parse_ts
    parse_ts-ParsesTs s w = elim (Option-cases (P.parse_from_rfc3339 s)) [
      | inl e ↦ rw e (L.utc_now w, λ c h. cc)
      | inr (t, e) ↦ rw e (Same-refl w, λ c h. cc)
    ]

    pub row_to_task-ReadsRow :
        (r : TaskRow) (w : P.World) → ReadsRow r w (row_to_task P (task_columns r) w)
    unfolding row_to_task task_columns
    row_to_task-ReadsRow r w =
        bind-ensures (parse_ts P r.created_at) _ w (ParsesTs r.created_at w) (ReadsRow r w)
          (parse_ts-ParsesTs r.created_at w)
          (λ c w₁ h₁.
            bind-ensures (parse_ts P r.updated_at) _ w₁ (ParsesTs r.updated_at w₁) (ReadsRow r w)
              (parse_ts-ParsesTs r.updated_at w₁)
              (λ u w₂ h₂. (
                Same-trans h₁.0 h₂.0,
                record {
                  id = refl;
                  title = refl;
                  description = refl;
                  status = refl;
                  owner = refl;
                  created_at = h₁.1;
                  updated_at = h₂.1;
                },
              ))
              (λ e w₂ h₂. Same-trans h₁.0 h₂))
          (λ e w₁ h₁. h₁)

    next_task-Reads :
        (id : String) (o : Option TaskRow) (rs : List (Except String Row)) (w w' : P.World)
        → find_task id (T.tasks w) ≡ o
        → Same P T w w'
        → Yields P T task_columns rs (found_rows P T o)
        → Reads id w (next_task P rs w')
    next_task-Reads id none [] w w' f s y = (s, f)
    next_task-Reads id none (ok r ∷ rs) w w' f s y = absurd y
    next_task-Reads id none (err e ∷ rs) w w' f s y = s
    next_task-Reads id (some x) [] w w' f s y = absurd y
    next_task-Reads id (some x) (err e ∷ rs) w w' f s y = s
    next_task-Reads id (some x) (ok r ∷ rs) w w' f s y = rw (y.0) (
        bind-ensures (row_to_task P (task_columns x)) _ w' (ReadsRow x w') (Reads id w)
          (row_to_task-ReadsRow x w') (λ t w'' h. (Same-trans s h.0, (x, f, h.1)))
          (λ e w'' h. Same-trans s h))

    -- A SELECT under `?`, sent from a world `w₁` with the tables of `w`.
    pub sql-SelectsApp :
        {R : Type 0} (columns : R → Row) (xs : List R) (m : Sql P (List (Except String Row)))
        (w w₁ : P.World)
        → Same P T w w₁
        → Selects P T columns xs w₁ (m w₁)
        → SelectsApp columns xs w (sql P m w₁)
    unfolding from_rusqlite
    sql-SelectsApp columns xs m w w₁ h law =
        map_err-ensures from_rusqlite m w₁ (Selects P T columns xs w₁) (SelectsApp columns xs w) law
          (λ rs w₂ h₂. (Same-trans h h₂.0, h₂.1)) (λ e w₂ h₂. (Same-trans h h₂, tt))

    -- Over a lawful database, `get_task` writes nothing. It returns the task of the row with that id, `None` only if there
    -- is none, and an internal error if the database fails.
    pub get_task-ReadsTask : (id : String) (w : P.World) → ReadsTask id w (get_task P id w)
    unfolding get_task from_rusqlite
    get_task-ReadsTask id w =
        bind-ensures (get_conn P) _ w (Connects w) (ReadsTask id w) (get_conn-Connects w)
          (λ _ w₁ h₁.
            bind-ensures (sql P (P.query get_task_sql (text id ∷ []))) _ w₁
              (SelectsApp task_columns (found_rows P T (find_task id (T.tasks w))) w)
              (ReadsTask id w)
              (sql-SelectsApp task_columns (found_rows P T (find_task id (T.tasks w)))
                (P.query get_task_sql (text id ∷ [])) w w₁ h₁ (rw h₁.tasks at (L.get_task id w₁)))
              (λ rs w₂ h₂.
                map_err-ensures from_rusqlite (next_task P rs) w₂ (Reads id w) (ReadsTask id w)
                  (next_task-Reads id (find_task id (T.tasks w)) rs w w₂ refl h₂.0 h₂.1)
                  (elim [ none ↦ λ w₃ h₃. h₃ | some t ↦ λ w₃ h₃. h₃ ]) (λ e w₃ h₃. (h₃, tt)))
              (λ e w₂ h₂. h₂))
          (λ e w₁ h₁. h₁)
