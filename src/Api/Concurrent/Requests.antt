-- ===== src/Api/Concurrent/Requests.antt =====
-- Every request keeps what its steps keep, so requests served together keep it too
-- (src/lib.rs, `build_router`).
use rhel9_app_micro.Prelude.{String, ◌<>◌, ◌≡◌, inl, inr, false, Bool-cases, if◌then◌else◌}
use rhel9_app_micro.Outcome.{Except, ok, err, Act, lift, map_err, run}
use rhel9_app_micro.Process.{Process, finish, atom, ◌>>=◌}
use rhel9_app_micro.Process.Promises.{Keeps, Promises-then, Keeps-then}
use rhel9_app_micro.Models.{
  Task, CreateTask, UpdateTask, validate_create, validate_update, status_as_str,
}
use rhel9_app_micro.Errors.{AppError, bad_request, forbidden}
use rhel9_app_micro.Platform.{Platform}
use rhel9_app_micro.Extract.{Headers, AuthUser, auth_user, admin_user}
use rhel9_app_micro.Db
use rhel9_app_micro.Db.{patched}
use rhel9_app_micro.Db.Lawful.{Tables, Same, IsLawful}
use rhel9_app_micro.Handlers
use rhel9_app_micro.Handlers.{AppState, existing_task, is_stranger}
use rhel9_app_micro.Api.{
  undecodable, Extracted, Endpoint, login, list_tasks, create_task, get_task, update_task,
  delete_task, list_audit, healthz, openapi_json, swagger_ui, metrics, readyz, Reply,
}
use rhel9_app_micro.Api.Effects.{Authenticates}
use rhel9_app_micro.Api.Quiet.{
  admin_user-Quiet, login-Quiet, list_tasks-Quiet, list_audit-Quiet, get_task-Quiet, readyz-Same,
}
use rhel9_app_micro.Api.Steps.{
  Steps, create_steps, update_rest, update_steps, delete_rest, delete_steps, extracted_steps,
  answer_steps,
}
use rhel9_app_micro.Api.Concurrent.{
  IsStable, quiet_step, audit_step, Checked, check_step, AuthOutcome, auth_step, Kept, find_step,
  create_step, update_step, delete_step,
}

module _ (P : Platform) (T : Tables P) (L : IsLawful P T) (state : AppState) where
  module _ (headers : Headers) (I : P.World → Type 0) (K : String → Task P.DateTime → Type 0)
      (S : IsStable P T state.config headers I K) where
    quiet_then :
        {A B : Type 0} (m : Act AppError P.World A) (k : A → Process AppError P.World B)
        → ((w : P.World) → Same P T w (m w).1)
        → ((a : A) → Keeps I (k a))
        → Keeps I (atom m >>= k)
    quiet_then m k h rest = Keeps-then I (atom m) k (quiet_step P T L state headers I K S m h) rest

    -- Behind the authentication of the user, and behind the check of a body.
    auth_then :
        {B : Type 0} (k : AuthUser → Process AppError P.World B)
        → ((user : AuthUser) → Authenticates P T state.config headers user → Keeps I (k user))
        → Keeps I (atom (auth_user P state.config headers) >>= k)
    auth_then k rest =
        Promises-then I (AuthOutcome P T L state headers I K S) (λ r. Unit)
          (atom (auth_user P state.config headers)) k (auth_step P T L state headers I K S) rest
          (λ e q. tt)

    check_then :
        {B : Type 0} (v : Except String Unit) (k : Unit → Process AppError P.World B)
        → (v ≡ ok tt → Keeps I (k tt))
        → Keeps I (atom (map_err bad_request (lift v)) >>= k)
    check_then v k rest =
        Promises-then I (Checked P T L state headers I K S v) (λ r. Unit)
          (atom (map_err bad_request (lift v))) k (check_step P T L state headers I K S v)
          (λ a e. rest e) (λ e q. tt)

    -- Behind the test of who may change the task that the request names.
    may_then :
        {B : Type 0} (user : AuthUser) (id message : String)
        (k : Task P.DateTime → Process AppError P.World B)
        → ((t : Task P.DateTime) → K id t → is_stranger P user t ≡ false → Keeps I (k t))
        → Keeps I (
            atom (existing_task P id) >>= λ t.
            if is_stranger P user t then finish (err (forbidden message)) else k t)
    may_then user id message k rest =
        Promises-then I (Kept P T L state headers I K S id) (λ r. Unit) (atom (existing_task P id))
          _ (find_step P T L state headers I K S id)
          (λ t kept. elim (Bool-cases (is_stranger P user t)) [
            | inl other ↦ rw other tt
            | inr allowed ↦ rw allowed (rest t kept allowed)
          ])
          (λ e q. tt)

    audit_then :
        {B : Type 0} (actor action id detail : String) (b : B)
        → Keeps I (atom (Db.record_audit P actor action "task" id detail) >>= λ _. finish (ok b))
    audit_then actor action id detail b =
        Keeps-then I (atom (Db.record_audit P actor action "task" id detail)) _
          (audit_step P T L state headers I K S actor action id detail) (λ a. tt)

    module _ (user : AuthUser) (a : Authenticates P T state.config headers user) where
      create_steps-Keeps : (input : CreateTask) → Keeps I (create_steps P user input)
      unfolding create_steps
      create_steps-Keeps input = check_then (validate_create input) _ λ v.
          Keeps-then I (atom (Db.create_task P user.username input)) _
            (create_step P T L state headers I K S user a input v)
            (λ t. audit_then user.username "create" t.id ("title=" <> t.title) (201, t))

      update_steps-Keeps :
          (id : String) (input : UpdateTask) → Keeps I (update_steps P user id input)
      unfolding update_steps update_rest
      update_steps-Keeps id input = check_then (validate_update input) _ λ v.
          may_then user id "you may only modify your own tasks" _ λ existing k p.
            Keeps-then I (atom (Db.update_task P existing input)) _
              (update_step P T L state headers I K S user a id existing input v k p)
              (λ t. audit_then user.username "update" t.id ("status=" <> status_as_str t.status) t)

      delete_steps-Keeps : (id : String) → Keeps I (delete_steps P user id)
      unfolding delete_steps delete_rest
      delete_steps-Keeps id =
          may_then user id "you may only delete your own tasks" _ λ existing k p.
            Keeps-then I (atom (Db.delete_task P id)) _
              (delete_step P T L state headers I K S user a id existing k p)
              (λ b. audit_then user.username "delete" id "" 204)

    extracted-Keeps :
        {A : Type 0} (x : Extracted A) (k : A → Steps P (Reply P.DateTime))
        → ((a : A) → Keeps I (k a))
        → Keeps I (extracted_steps P x k)
    extracted-Keeps (ok a) k h = h a
    extracted-Keeps (err status) k h = tt

    reply-Keeps :
        {A : Type 0} (p : Steps P A) (reply : A → Reply P.DateTime)
        → Keeps I p
        → Keeps I (p >>= λ a. finish (ok (reply a)))
    reply-Keeps p reply h = Keeps-then I p _ h (λ a. tt)

    -- A call that changes no table, and the reply made of it.
    reading-Keeps :
        {A : Type 0} (m : Act AppError P.World A) (reply : A → Reply P.DateTime)
        → ((w : P.World) → Same P T w (m w).1)
        → Keeps I (atom m >>= λ a. finish (ok (reply a)))
    reading-Keeps m reply h = quiet_then m _ h (λ a. tt)

    pub answer_steps-Keeps : (endpoint : Endpoint) → Keeps I (answer_steps P state headers endpoint)
    unfolding answer_steps
    answer_steps-Keeps (login body) =
        extracted-Keeps body _
          λ req. reading-Keeps (Handlers.login P state req) _ (login-Quiet P T L state req)
    answer_steps-Keeps (list_tasks query) = auth_then _ λ user a.
        extracted-Keeps query _
          λ p. reading-Keeps (Handlers.list_tasks P user p) _ (list_tasks-Quiet P T L user p)
    answer_steps-Keeps (create_task body) = auth_then _ λ user a.
        extracted-Keeps body _
          λ input. reply-Keeps (create_steps P user input) _ (create_steps-Keeps user a input)
    answer_steps-Keeps (get_task id) =
        auth_then _
          λ user a. reading-Keeps (Handlers.get_task P user id) _ (get_task-Quiet P T L user id)
    answer_steps-Keeps (update_task id body) = auth_then _ λ user a.
        extracted-Keeps body _
          λ input. reply-Keeps (update_steps P user id input) _ (update_steps-Keeps user a id input)
    answer_steps-Keeps (delete_task id) =
        auth_then _ λ user a. reply-Keeps (delete_steps P user id) _ (delete_steps-Keeps user a id)
    answer_steps-Keeps (undecodable handler status) = auth_then _ λ user a. tt
    answer_steps-Keeps (list_audit query) =
        quiet_then (admin_user P state.config headers) _
          (admin_user-Quiet P T L state.config headers)
          λ admin.
            extracted-Keeps query _
              λ q. reading-Keeps (Handlers.list_audit P admin q) _ (list_audit-Quiet P T L admin q)
    answer_steps-Keeps healthz = tt
    answer_steps-Keeps openapi_json = tt
    answer_steps-Keeps swagger_ui = tt
    answer_steps-Keeps metrics = tt
    answer_steps-Keeps readyz = reading-Keeps (run (Handlers.readyz P)) _ (readyz-Same P T L)
