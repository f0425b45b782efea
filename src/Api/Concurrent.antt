-- ===== src/Api/Concurrent.antt =====
-- Requests served together: what every interleaving of their steps keeps of the tables
-- (src/lib.rs over src/handlers.rs and src/db.rs).
pub mod Requests
pub mod Served
pub mod Access
pub mod Valid
pub mod AuditLog
pub mod Recorded
pub mod Acknowledged
pub mod Replies
use rhel9_app_micro.Prelude.{
  ℕ, String, ◌<>◌, ◌≡◌, refl, ◌∙◌, inl, inr, Bool, true, false, Bool-cases, Option, none, List, [],
  ◌∷◌, ◌++◌, map, if◌then◌else◌, All,
}
use rhel9_app_micro.Outcome.{Except, ok, err, Act, lift, map_err, run, Except-cases}
use rhel9_app_micro.Process.{Process, finish, step, atom, ◌>>=◌, interleave}
use rhel9_app_micro.Process.Promises.{Promises, Keeps, Promises-then, Keeps-then, interleave-Keeps}
use rhel9_app_micro.Models.{
  Task, CreateTask, UpdateTask, validate_create, validate_update, status_as_str,
}
use rhel9_app_micro.Errors.{AppError, bad_request, forbidden, too_many_requests}
use rhel9_app_micro.Config.{Config}
use rhel9_app_micro.Platform.{Platform}
use rhel9_app_micro.Extract.{Headers, AuthUser, auth_user, admin_user}
use rhel9_app_micro.Observe.{Server, client_key}
use rhel9_app_micro.Db
use rhel9_app_micro.Db.{patched}
use rhel9_app_micro.Db.Lawful.{Tables, Same, IsLawful}
use rhel9_app_micro.Db.Lawful.Rows.{TaskRow, AuditRow, find_task, patch_where, remove_where}
use rhel9_app_micro.Db.Reads.{Same-trans}
use rhel9_app_micro.Db.Outcomes.{task_row, task_patch, IsNew, Creates, Updates, Deletes, Logs}
use rhel9_app_micro.Db.Writes.{
  create_task-Creates, update_task-Updates, delete_task-Deletes, record_audit-Logs,
}
use rhel9_app_micro.Handlers
use rhel9_app_micro.Handlers.{AppState, existing_task, is_stranger}
use rhel9_app_micro.Handlers.Permission.{Named, Finds, existing_task-Finds}
use rhel9_app_micro.Api.{
  Extracted, Endpoint, login, list_tasks, create_task, get_task, update_task, delete_task,
  list_audit, healthz, readyz, Request, Reply, refuse,
}
use rhel9_app_micro.Api.Effects.{Authenticates}
use rhel9_app_micro.Api.Quiet.{
  auth_user-Quiet, admin_user-Quiet, login-Quiet, list_tasks-Quiet, list_audit-Quiet,
  get_task-Quiet, readyz-Same,
}
use rhel9_app_micro.Api.Answers.{client_key-Same}
use rhel9_app_micro.Api.Steps.{
  Steps, create_steps, update_rest, update_steps, delete_rest, delete_steps, extracted_steps,
  answer_steps, respond, on_world, admit, count, handle_steps,
}

module _ (P : Platform) (T : Tables P) where
  -- What a statement about the tables has to withstand, to hold through every interleaving of
  -- requests with these headers. `K id t` is what a request may keep of a task that it has read
  -- under `id`, while other requests run.
  pub record IsStable (config : Config) (headers : Headers) (I : P.World → Type 0)
      (K : String → Task P.DateTime → Type 0) : Type 0 where
    pub quiet : (w w' : P.World) → Same P T w w' → I w → I w'
    pub logged :
        (e : AuditRow) (w w' : P.World)
        → T.tasks w' ≡ T.tasks w
        → T.audits w' ≡ T.audits w ++ e ∷ []
        → I w
        → I w'
    pub found : (id : String) (t : Task P.DateTime) (w : P.World) → Named P T id w t → I w → K id t
    pub created :
        (user : AuthUser) (input : CreateTask) (t : Task P.DateTime) (w w' : P.World)
        → Authenticates P T config headers user
        → validate_create input ≡ ok tt
        → IsNew P user.username input t
        → find_task t.id (T.tasks w) ≡ none
        → T.tasks w' ≡ T.tasks w ++ task_row P t ∷ []
        → T.audits w' ≡ T.audits w
        → I w
        → I w'
    pub updated :
        (user : AuthUser) (id : String) (existing : Task P.DateTime) (input : UpdateTask)
        (now : P.DateTime) (w w' : P.World)
        → Authenticates P T config headers user
        → validate_update input ≡ ok tt
        → K id existing
        → is_stranger P user existing ≡ false
        → T.tasks w'
          ≡ patch_where existing.id (task_patch P (patched P existing input now)) (T.tasks w)
        → T.audits w' ≡ T.audits w
        → I w
        → I w'
    pub deleted :
        (user : AuthUser) (id : String) (existing : Task P.DateTime) (w w' : P.World)
        → Authenticates P T config headers user
        → K id existing
        → is_stranger P user existing ≡ false
        → T.tasks w' ≡ remove_where id (T.tasks w)
        → T.audits w' ≡ T.audits w
        → I w
        → I w'

  module _ (L : IsLawful P T) (state : AppState) (headers : Headers) (I : P.World → Type 0)
      (K : String → Task P.DateTime → Type 0) (S : IsStable state.config headers I K) where
    -- A step that changes no table.
    pub quiet_step :
        {A : Type 0} (m : Act AppError P.World A)
        → ((w : P.World) → Same P T w (m w).1)
        → Keeps I (atom m)
    quiet_step m h w i = (S.quiet w (m w).1 (h w) i, tt)

    pub audit_step :
        (actor action id detail : String)
        → Keeps I (atom (Db.record_audit P actor action "task" id detail))
    audit_step actor action id detail w i =
        (go _ (record_audit-Logs P T L actor action "task" id detail w), tt)
      where
        go :
            (r : Except AppError Unit × P.World)
            → Logs P T actor action "task" id detail w r
            → I r.1
        go (ok a, w') h = S.logged h.1.0 w w' h.0 h.1.2 i
        go (err e, w') h = S.quiet w w' h.0 i

    -- The outcome of a check of a body.
    abbrev pub Checked : Except String Unit → Except AppError Unit → Type 0
    Checked v (ok a) = v ≡ ok tt
    Checked v (err e) = Unit

    pub check_step :
        (v : Except String Unit) → Promises I (Checked v) (atom (map_err bad_request (lift v)))
    check_step (ok a) w i = (i, refl)
    check_step (err m) w i = (i, tt)

    abbrev pub AuthOutcome : Except AppError AuthUser → Type 0
    AuthOutcome (ok user) = Authenticates P T state.config headers user
    AuthOutcome (err e) = Unit

    pub auth_step : Promises I AuthOutcome (atom (auth_user P state.config headers))
    auth_step w i = (
      S.quiet w _ (auth_user-Quiet P T L state.config headers w) i,
      go (auth_user P state.config headers w) refl,
    )
      where
        go :
            (r : Except AppError AuthUser × P.World)
            → auth_user P state.config headers w ≡ r
            → AuthOutcome r.0
        go (ok user, w') e = (w, w', e)
        go (err e', w') e = tt

    -- What is kept of the task that the request names.
    abbrev pub Kept : String → Except AppError (Task P.DateTime) → Type 0
    Kept id (ok t) = K id t
    Kept id (err e) = Unit

    pub find_step : (id : String) → Promises I (Kept id) (atom (existing_task P id))
    find_step id w i = go _ (existing_task-Finds P T L id w)
      where
        go :
            (r : Except AppError (Task P.DateTime) × P.World)
            → Finds P T id w r
            → I r.1 × Kept id r.0
        go (ok t, w') h = (S.quiet w w' h.0 i, S.found id t w h.1 i)
        go (err e, w') h = (S.quiet w w' h.0 i, tt)

    module _ (user : AuthUser) (a : Authenticates P T state.config headers user) where
      pub create_step :
          (input : CreateTask)
          → validate_create input ≡ ok tt
          → Keeps I (atom (Db.create_task P user.username input))
      create_step input v w i = (go _ (create_task-Creates P T L user.username input w), tt)
        where
          go :
              (r : Except AppError (Task P.DateTime) × P.World)
              → Creates P T user.username input w r
              → I r.1
          go (ok t, w') h = S.created user input t w w' a v h.0 h.1 h.2 h.3 i
          go (err e, w') h = S.quiet w w' h.0 i

      pub update_step :
          (id : String) (existing : Task P.DateTime) (input : UpdateTask)
          → validate_update input ≡ ok tt
          → K id existing
          → is_stranger P user existing ≡ false
          → Keeps I (atom (Db.update_task P existing input))
      update_step id existing input v k p w i =
          (go _ (update_task-Updates P T L existing input w), tt)
        where
          go :
              (r : Except AppError (Task P.DateTime) × P.World)
              → Updates P T existing input w r
              → I r.1
          go (ok t, w') (e, rows, audits) =
              S.updated user id existing input (P.utc_now w).0 w w' a v k p (rw e at rows) audits i
          go (err e, w') h = S.quiet w w' h.0 i

      pub delete_step :
          (id : String) (existing : Task P.DateTime)
          → K id existing
          → is_stranger P user existing ≡ false
          → Keeps I (atom (Db.delete_task P id))
      delete_step id existing k p w i = (go _ (delete_task-Deletes P T L id w), tt)
        where
          go : (r : Except AppError Bool × P.World) → Deletes P T id w r → I r.1
          go (ok b, w') h = S.deleted user id existing w w' a k p h.0 h.1 i
          go (err e, w') h = S.quiet w w' h.0 i
