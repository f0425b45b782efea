-- ===== src/Api/RoundTrip.antt =====
-- What is stored is read back (src/db.rs, `create_task` and `get_task`).
use text.Mathlib.TextPositions.{eq_refl}
use rhel9_app_micro.Prelude.{String, ◌≡◌, refl, ◌∙◌, ap, Option, none, some}
use rhel9_app_micro.Outcome.{Except, ok, err, IsOk}
use rhel9_app_micro.Models.{Task, CreateTask}
use rhel9_app_micro.Models.Names.{status_from_str-status_as_str}
use rhel9_app_micro.Errors.{AppError}
use rhel9_app_micro.Platform.{Platform}
use rhel9_app_micro.Db.{create_task, get_task}
use rhel9_app_micro.Db.Lawful.{Tables, Same, IsLawful}
use rhel9_app_micro.Db.Lawful.Rows.{find_task}
use rhel9_app_micro.Db.Reads.{Decodes, ReadsTask, get_task-ReadsTask}
use rhel9_app_micro.Db.Outcomes.{task_row, Creates}
use rhel9_app_micro.Db.Writes.{create_task-Creates}
use rhel9_app_micro.Db.Available.{IsReadable, get_task-IsOk}
use rhel9_app_micro.Api.Rows.{find_task-append}

module _ (P : Platform) where
  -- chrono reads back the times of the task as it writes them in RFC 3339.
  pub record KeepsTimes (t : Task P.DateTime) : Type 0 where
    pub created_at : P.parse_from_rfc3339 (P.to_rfc3339 t.created_at) ≡ some t.created_at
    pub updated_at : P.parse_from_rfc3339 (P.to_rfc3339 t.updated_at) ≡ some t.updated_at

  Decodes-task_row : (t u : Task P.DateTime) → KeepsTimes t → Decodes P (task_row P t) u → u ≡ t
  Decodes-task_row t u k d =
      let status : u.status ≡ t.status = d.status ∙ rw (status_from_str-status_as_str t.status) in
      let created : u.created_at ≡ t.created_at = d.created_at t.created_at k.created_at in
      let updated : u.updated_at ≡ t.updated_at = d.updated_at t.updated_at k.updated_at in
      λ i. record {
        id = d.id i;
        title = d.title i;
        description = d.description i;
        status = status i;
        owner = d.owner i;
        created_at = created i;
        updated_at = updated i;
      }

module _ (P : Platform) (T : Tables P) (L : IsLawful P T) (A : IsReadable P T) where
  reads_stored :
      (t : Task P.DateTime) (v : P.World) (r : Except AppError (Option (Task P.DateTime)) × P.World)
      → KeepsTimes P t
      → find_task t.id (T.tasks v) ≡ some (task_row P t)
      → ReadsTask P T t.id v r
      → IsOk r.0
      → r.0 ≡ ok (some t)
  reads_stored t v (ok none, v') k f h is = cc (f, h.1)
  reads_stored t v (ok (some u), v') k f (s, (x, g, d)) is =
      let same : x ≡ task_row P t = cc (f, g) in
      ap (λ y. ok (some y)) (Decodes-task_row P t u k (rw same at d))
  reads_stored t v (err e, v') k f h is = absurd is

  -- Over a lawful database whose pool has connections and in which a task is looked up without an
  -- error, a task that `create_task` stored is read back by `get_task`, the same in all fields, as
  -- long as nothing else is written; provided that chrono reads back the task's times.
  pub create_task-get_task :
      (owner : String) (input : CreateTask) (t : Task P.DateTime) (w w₁ v : P.World)
      → create_task P owner input w ≡ (ok t, w₁)
      → Same P T w₁ v
      → KeepsTimes P t
      → (get_task P t.id v).0 ≡ ok (some t)
  create_task-get_task owner input t w w₁ v made s k =
      let stored : Creates P T owner input w (ok t, w₁) =
        rw made at (create_task-Creates P T L owner input w) in
      let there : find_task t.id (T.tasks v) ≡ some (task_row P t) =
        rw (s.tasks, stored.2, find_task-append t.id (task_row P t) (T.tasks w), stored.1, eq_refl)
          refl in
      reads_stored t v (get_task P t.id v) k there (get_task-ReadsTask P T L t.id v)
        (get_task-IsOk P T A t.id v)
