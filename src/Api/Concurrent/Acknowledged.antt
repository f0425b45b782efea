-- ===== src/Api/Concurrent/Acknowledged.antt =====
-- What the replies of the routes acknowledge is in the audit log, whatever other requests do
-- meanwhile (src/lib.rs over src/handlers.rs).
use rhel9_app_micro.Prelude.{ℕ}
use rhel9_app_micro.Outcome.{ok, err, Act, run}
use rhel9_app_micro.Process.{finish, atom, ◌>>=◌}
use rhel9_app_micro.Process.Leaves.{Leaves, Leaves-then, Leaves-atom}
use rhel9_app_micro.Errors.{AppError}
use rhel9_app_micro.Platform.{Platform}
use rhel9_app_micro.Extract.{Headers, AuthUser, auth_user, admin_user}
use rhel9_app_micro.Db.Lawful.{Tables, Same, IsLawful}
use rhel9_app_micro.Handlers
use rhel9_app_micro.Handlers.{AppState}
use rhel9_app_micro.Api.{
  undecodable, Extracted, Endpoint, login, list_tasks, create_task, get_task, update_task,
  delete_task, list_audit, healthz, readyz, openapi_json, swagger_ui, metrics, Reply, plain,
}
use rhel9_app_micro.Api.Effects.{Authenticates}
use rhel9_app_micro.Api.Quiet.{
  auth_user-Quiet, admin_user-Quiet, login-Quiet, list_tasks-Quiet, list_audit-Quiet,
  get_task-Quiet, readyz-Same,
}
use rhel9_app_micro.Api.Steps.{
  Steps, create_steps, update_steps, delete_steps, extracted_steps, answer_steps,
}
use rhel9_app_micro.Api.Concurrent.Recorded.{
  Recorded, R, unmoved, quiet-Leaves, create_steps-Leaves, update_steps-Leaves, delete_steps-Leaves,
}

module _ (P : Platform) (T : Tables P) (L : IsLawful P T) (state : AppState) where
  module _ (headers : Headers) where
    abbrev pub Q : Endpoint → Reply P.DateTime → P.World → Type 0
    Q endpoint = Recorded P T state.config headers endpoint

    abbrev pub Answered : Endpoint → Steps P (Reply P.DateTime) → P.World → Type 0
    Answered endpoint p w = Leaves (R P T) (Q endpoint) p w

    auth-Leaves :
        (endpoint : Endpoint) (k : AuthUser → Steps P (Reply P.DateTime)) (w : P.World)
        → ((user : AuthUser) (w' : P.World)
            → Authenticates P T state.config headers user
            → Answered endpoint (k user) w')
        → Answered endpoint (atom (auth_user P state.config headers) >>= k) w
    auth-Leaves endpoint k w rest =
        Leaves-atom (R P T) (Q endpoint) (auth_user P state.config headers) k w
          (λ v. unmoved P T (auth_user-Quiet P T L state.config headers v))
          (λ user v w' e. rest user w' (v, w', e))

    -- A rejected query or body changes nothing.
    extracted-Leaves :
        {A : Type 0} (endpoint : Endpoint) (x : Extracted A) (k : A → Steps P (Reply P.DateTime))
        (w : P.World)
        → ((status : ℕ) → Q endpoint (status, plain) w)
        → ((a : A) → Answered endpoint (k a) w)
        → Answered endpoint (extracted_steps P x k) w
    unfolding Leaves
    extracted-Leaves endpoint (ok a) k w none h = h a
    extracted-Leaves endpoint (err status) k w none h = none status

    reading-Leaves :
        {A : Type 0} (endpoint : Endpoint) (m : Act AppError P.World A)
        (reply : A → Reply P.DateTime) (w : P.World)
        → ((v : P.World) → Same P T v (m v).1)
        → ((a : A) (w' : P.World) → Q endpoint (reply a) w')
        → Answered endpoint (atom m >>= λ a. finish (ok (reply a))) w
    unfolding Leaves
    reading-Leaves endpoint m reply w same h =
        quiet-Leaves P T L (Q endpoint) m _ w (λ v. unmoved P T (same v)) (λ a w'. h a w')

    change-Leaves :
        {A : Type 0} (endpoint : Endpoint) (S : A → P.World → Type 0) (p : Steps P A)
        (reply : A → Reply P.DateTime) (w : P.World)
        → Leaves (R P T) S p w
        → ((a : A) (w' : P.World) → S a w' → Q endpoint (reply a) w')
        → Answered endpoint (p >>= λ a. finish (ok (reply a))) w
    unfolding Leaves
    change-Leaves endpoint S p reply w h k = Leaves-then (R P T) S (Q endpoint) p _ w h k

    pub answer_steps-Leaves :
        (endpoint : Endpoint) (w : P.World)
        → Answered endpoint (answer_steps P state headers endpoint) w
    unfolding answer_steps Leaves
    answer_steps-Leaves (login body) w =
        extracted-Leaves (login body) body _ w (λ st. tt)
          (λ req.
            reading-Leaves (login body) (Handlers.login P state req) _ w
              (login-Quiet P T L state req) (λ a w'. tt))
    answer_steps-Leaves (list_tasks query) w = auth-Leaves (list_tasks query) _ w (λ user w₁ a.
        extracted-Leaves (list_tasks query) query _ w₁ (λ st. tt)
          (λ p.
            reading-Leaves (list_tasks query) (Handlers.list_tasks P user p) _ w₁
              (list_tasks-Quiet P T L user p) (λ ts w'. tt)))
    answer_steps-Leaves (create_task body) w = auth-Leaves (create_task body) _ w (λ user w₁ a.
        extracted-Leaves (create_task body) body _ w₁ (λ st. tt)
          (λ input.
            change-Leaves (create_task body) _ (create_steps P user input) _ w₁
              (create_steps-Leaves P T L user input w₁) (λ r w' h. (user, a, h))))
    answer_steps-Leaves (get_task id) w = auth-Leaves (get_task id) _ w (λ user w₁ a.
        reading-Leaves (get_task id) (Handlers.get_task P user id) _ w₁
          (get_task-Quiet P T L user id) (λ t w'. tt))
    answer_steps-Leaves (update_task id body) w =
        auth-Leaves (update_task id body) _ w (λ user w₁ a.
          extracted-Leaves (update_task id body) body _ w₁ (λ st. tt)
            (λ input.
              change-Leaves (update_task id body) _ (update_steps P user id input) _ w₁
                (update_steps-Leaves P T L user id input w₁) (λ t w' h. (user, a, h))))
    answer_steps-Leaves (delete_task id) w = auth-Leaves (delete_task id) _ w (λ user w₁ a.
        change-Leaves (delete_task id) _ (delete_steps P user id) _ w₁
          (delete_steps-Leaves P T L user id w₁) (λ st w' h. (user, a, h)))
    answer_steps-Leaves (undecodable handler status) w =
        auth-Leaves (undecodable handler status) _ w (λ user w₁ a. tt)
    answer_steps-Leaves (list_audit query) w =
        quiet-Leaves P T L (Q (list_audit query)) (admin_user P state.config headers) _ w
          (λ v. unmoved P T (admin_user-Quiet P T L state.config headers v))
          (λ admin w₁.
            extracted-Leaves (list_audit query) query _ w₁ (λ st. tt)
              (λ q.
                reading-Leaves (list_audit query) (Handlers.list_audit P admin q) _ w₁
                  (list_audit-Quiet P T L admin q) (λ es w'. tt)))
    answer_steps-Leaves healthz w = tt
    answer_steps-Leaves openapi_json w = tt
    answer_steps-Leaves swagger_ui w = tt
    answer_steps-Leaves metrics w = tt
    answer_steps-Leaves readyz w =
        reading-Leaves readyz (run (Handlers.readyz P)) _ w (readyz-Same P T L) (λ a w'. tt)
