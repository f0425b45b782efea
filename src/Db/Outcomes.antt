-- ===== src/Db/Outcomes.antt =====
-- What the writing functions of src/db.rs may leave in the tables, said of the tables alone.
use rhel9_app_micro.Prelude.{ℕ, String, ◌≡◌, none, List, [], ◌∷◌, ◌++◌, unwrap_or}
use rhel9_app_micro.Outcome.{Except, ok, err}
use rhel9_app_micro.Text.{trim}
use rhel9_app_micro.Models.{Task, todo, status_as_str, CreateTask, UpdateTask}
use rhel9_app_micro.Errors.{AppError}
use rhel9_app_micro.Platform.{Platform}
use rhel9_app_micro.Db.{patched}
use rhel9_app_micro.Db.Lawful.{Tables}
use rhel9_app_micro.Db.Lawful.Rows.{
  TaskRow, AuditRow, Patch, find_task, find_audit, patch_where, remove_where,
}
use rhel9_app_micro.Db.Reads.{Fails}

module _ (P : Platform) where
  -- The row in which a task is stored.
  abbrev pub task_row : Task P.DateTime → TaskRow
  task_row t = record {
    id = t.id;
    title = t.title;
    description = t.description;
    status = status_as_str t.status;
    owner = t.owner;
    created_at = P.to_rfc3339 t.created_at;
    updated_at = P.to_rfc3339 t.updated_at;
  }

  -- What an update of the task writes.
  abbrev pub task_patch : Task P.DateTime → Patch
  task_patch t = record {
    title = t.title;
    description = t.description;
    status = status_as_str t.status;
    updated_at = P.to_rfc3339 t.updated_at;
  }

  -- A task made from a request by `owner`.
  pub record IsNew (owner : String) (input : CreateTask) (t : Task P.DateTime) : Type 0 where
    pub title : t.title ≡ trim input.title
    pub description : t.description ≡ input.description
    pub status : t.status ≡ unwrap_or input.status todo
    pub owner_kept : t.owner ≡ owner
    pub stamped : t.updated_at ≡ t.created_at
    pub drawn : (v : P.World) × (t.id ≡ (P.new_v4 v).0)

  -- An event of the audit log.
  pub record IsEvent (actor action entity_type entity_id detail : String) (e : AuditRow)
      : Type 0 where
    pub by : e.actor ≡ actor
    pub did : e.action ≡ action
    pub on_type : e.entity_type ≡ entity_type
    pub on_id : e.entity_id ≡ entity_id
    pub with_detail : e.detail ≡ detail

module _ (P : Platform) (T : Tables P) where
  -- The event's id was drawn for it, and no event of the log has it.
  abbrev pub HasNewId : AuditRow → P.World → Type 0
  HasNewId e w = ((v : P.World) × (e.id ≡ (P.new_v4 v).0)) × (find_audit e.id (T.audits w) ≡ none)

  -- The outcomes: what is left after success, and nothing changed after an error.
  abbrev pub Creates :
      String → CreateTask → P.World → Except AppError (Task P.DateTime) × P.World → Type 0
  Creates owner input w (ok t, w') =
      IsNew P owner input t
      × (find_task t.id (T.tasks w) ≡ none)
      × (T.tasks w' ≡ T.tasks w ++ task_row P t ∷ [])
      × (T.audits w' ≡ T.audits w)
  Creates owner input w (err e, w') = Fails P T w e w'

  abbrev pub Updates :
      Task P.DateTime → UpdateTask → P.World → Except AppError (Task P.DateTime) × P.World → Type 0
  Updates existing input w (ok t, w') =
      (t ≡ patched P existing input (P.utc_now w).0)
      × (T.tasks w' ≡ patch_where existing.id (task_patch P t) (T.tasks w))
      × (T.audits w' ≡ T.audits w)
  Updates existing input w (err e, w') = Fails P T w e w'

  abbrev pub Deletes : {A : Type 0} → String → P.World → Except AppError A × P.World → Type 0
  Deletes id w (ok b, w') = (T.tasks w' ≡ remove_where id (T.tasks w)) × (T.audits w' ≡ T.audits w)
  Deletes id w (err e, w') = Fails P T w e w'

  abbrev pub Logs :
      {A : Type 0}
      → String
      → String
      → String
      → String
      → String
      → P.World
      → Except AppError A × P.World
      → Type 0
  Logs actor action entity_type entity_id detail w (ok b, w') =
      (T.tasks w' ≡ T.tasks w)
      × ((e : AuditRow) × IsEvent P actor action entity_type entity_id detail e
          × (T.audits w' ≡ T.audits w ++ e ∷ [])
          × HasNewId e w)
  Logs actor action entity_type entity_id detail w (err e, w') = Fails P T w e w'

  -- The outcomes of a statement under `?`.
  abbrev pub WritesApp :
      List TaskRow → List AuditRow → P.World → Except AppError ℕ × P.World → Type 0
  WritesApp tasks audits w (ok n, w') = (T.tasks w' ≡ tasks) × (T.audits w' ≡ audits)
  WritesApp tasks audits w (err e, w') = Fails P T w e w'

  abbrev pub InsertsApp : TaskRow → P.World → Except AppError ℕ × P.World → Type 0
  InsertsApp r w (ok n, w') =
      (find_task r.id (T.tasks w) ≡ none)
      × (T.tasks w' ≡ T.tasks w ++ r ∷ [])
      × (T.audits w' ≡ T.audits w)
  InsertsApp r w (err e, w') = Fails P T w e w'

  abbrev pub InsertsEventApp : AuditRow → P.World → Except AppError ℕ × P.World → Type 0
  InsertsEventApp e w (ok n, w') =
      (find_audit e.id (T.audits w) ≡ none)
      × (T.tasks w' ≡ T.tasks w)
      × (T.audits w' ≡ T.audits w ++ e ∷ [])
  InsertsEventApp e w (err x, w') = Fails P T w x w'
