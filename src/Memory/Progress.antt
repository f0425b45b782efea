-- ===== src/Memory/Progress.antt =====
-- The in-memory platform is available, so changes over it succeed.
use rhel9_app_micro.Prelude.{ℕ, ◌++◌, ◌≡◌, refl, inr, Option, none, some, [], ◌∷◌}
use rhel9_app_micro.Prelude.Int.{pos}
use rhel9_app_micro.Outcome.{ok, IsOk}
use rhel9_app_micro.Text
use rhel9_app_micro.Text.Decimal.{show}
use rhel9_app_micro.Models.{user, done, CreateTask, UpdateTask, validate_create, validate_update}
use rhel9_app_micro.Extract.{AuthUser}
use rhel9_app_micro.Db.Lawful.{found_rows}
use rhel9_app_micro.Db.Lawful.Rows.{TaskRow, task_columns, find_task, find_audit}
use rhel9_app_micro.Db.Available.{IsReadable, IsAvailable, readable}
use rhel9_app_micro.Handlers
use rhel9_app_micro.Db
use rhel9_app_micro.Models.{Task, todo, status_as_str}
use rhel9_app_micro.Config.Number.{parse_u32, parse_digits}
use rhel9_app_micro.Api.RoundTrip.{KeepsTimes, create_task-get_task}
use rhel9_app_micro.Handlers.Progress.{
  create_task-succeeds, update_task-succeeds, delete_task-succeeds,
}
use rhel9_app_micro.Memory.{Disk, memory, found}
use rhel9_app_micro.Memory.Lawful.{on_disk, memory-IsLawful}

found-readable :
    (o : Option TaskRow) → found o ≡ readable task_columns (found_rows memory on_disk o)
found-readable none = refl
found-readable (some r) = refl

memory-IsReadable : IsReadable memory on_disk
memory-IsReadable = record { pool_get = λ d. tt; get_task = λ id d. rw found-readable }

pub memory-IsAvailable : IsAvailable memory on_disk
memory-IsAvailable = record {
  reads = memory-IsReadable;
  insert_task = λ r d fresh. rw fresh tt;
  update_task = λ id p d. tt;
  delete_task = λ id d. tt;
  insert_audit = λ e d fresh. rw fresh tt;
}

abbrev mend_roof : TaskRow
mend_roof = record {
  id = "id-0";
  title = "mend";
  description = "the roof";
  status = "doing";
  owner = "user";
  created_at = "3";
  updated_at = "4";
}

abbrev disk : Disk
disk = record { tasks = mend_roof ∷ []; audits = []; clock = 9; ids = 1; outages = [] }

abbrev owner : AuthUser
owner = record {
  username = "user";
  role = user;
  claims = record { sub = "user"; role = "user"; exp = pos 3600; iat = pos 0 };
}

abbrev new_task : CreateTask
new_task = record { title = "paint"; description = ""; status = none }

create_task-succeeds_example : IsOk (Handlers.create_task memory owner new_task disk).0
unfolding validate_create Text.trim Text.is_empty find_task find_audit show
create_task-succeeds_example =
    create_task-succeeds memory on_disk memory-IsLawful memory-IsAvailable owner new_task disk refl
      refl refl

abbrev finish : UpdateTask
finish = record { title = none; description = none; status = some done }

update_task-succeeds_example : IsOk (Handlers.update_task memory owner "id-0" finish disk).0
unfolding validate_update find_task find_audit
update_task-succeeds_example =
    update_task-succeeds memory on_disk memory-IsLawful memory-IsAvailable owner "id-0" finish disk
      mend_roof refl refl (inr refl) refl

delete_task-succeeds_example : IsOk (Handlers.delete_task memory owner "id-0" disk).0
unfolding find_task find_audit
delete_task-succeeds_example =
    delete_task-succeeds memory on_disk memory-IsLawful memory-IsAvailable owner "id-0" disk
      mend_roof refl (inr refl) refl

abbrev stored : Task ℕ × Disk
stored = (
  record {
    id = "id-1";
    title = "paint";
    description = "";
    status = todo;
    owner = "user";
    created_at = 9;
    updated_at = 9;
  },
  record disk {
    tasks =
        disk.tasks
        ++ record {
          id = "id-1";
          title = "paint";
          description = "";
          status = "todo";
          owner = "user";
          created_at = "9";
          updated_at = "9";
        }
          ∷ [];
    clock = 10;
    ids = 2;
  },
)

-- It runs, so the theorem is about a task that was really stored.
stored_runs : Db.create_task memory "user" new_task disk ≡ (ok stored.0, stored.1)
unfolding Db.create_task Db.get_conn Text.trim show status_as_str find_task find_audit
stored_runs = refl

stored-KeepsTimes : KeepsTimes memory stored.0
unfolding show parse_u32 parse_digits
stored-KeepsTimes = record { created_at = refl; updated_at = refl }

create_task-get_task_example : (Db.get_task memory "id-1" stored.1).0 ≡ ok (some stored.0)
create_task-get_task_example =
    create_task-get_task memory on_disk memory-IsLawful memory-IsReadable "user" new_task stored.0
      disk stored.1 stored.1 stored_runs (record { tasks = refl; audits = refl }) stored-KeepsTimes
