-- ===== src/Document/Answers.antt =====
-- The statuses of the answers beside those that the document names (src/lib.rs and src/handlers.rs).
use rhel9_app_micro.Prelude.{
  ℕ, String, refl, inl, inr, Option, none, some, List, [], ◌∷◌, ◌++◌, map,
}
use rhel9_app_micro.Outcome.{Except, ok, err, run, pure, ◌>>=◌}
use rhel9_app_micro.Errors.{AppError, error_response}
use rhel9_app_micro.Platform.{Platform}
use rhel9_app_micro.Extract.{Headers, AuthUser, auth_user, admin_user}
use rhel9_app_micro.Db
use rhel9_app_micro.Db.{App}
use rhel9_app_micro.Handlers
use rhel9_app_micro.Handlers.{
  AppState, existing_task, is_stranger, ready_status, clamp_limit, clamp_offset,
}
use rhel9_app_micro.Api.{
  undecodable, Extracted, Endpoint, login, list_tasks, create_task, get_task, update_task,
  delete_task, list_audit, healthz, readyz, openapi_json, swagger_ui, metrics, Reply, session, task,
  tasks, events, health, answer, into_response, route,
}
use rhel9_app_micro.Document.{Operation}
use rhel9_app_micro.Document.Routes.{OneOf, operation}
use rhel9_app_micro.Document.Failures.{
  auth_user-FailsWith, admin_user-FailsWith, list_tasks-FailsWith, list_audit-FailsWith,
  existing_task-FailsWith,
}
use rhel9_app_micro.Document.Statuses.{
  StatusIn, then-StatusIn, bind-StatusIn, login-FailsWith, create_task-StatusIn, update_task_lem,
  delete_task-StatusIn, reply-StatusIn,
}

-- The extractor of the path, of the query or of the body, where the route has one, did not reject the request.
abbrev pub IsRead : {A : Type 0} → Extracted A → Type 0
IsRead (ok a) = Unit
IsRead (err status) = ⊥

abbrev pub Accepted : Endpoint → Type 0
Accepted (login body) = IsRead body
Accepted (list_tasks query) = IsRead query
Accepted (create_task body) = IsRead body
Accepted (get_task id) = Unit
Accepted (update_task id body) = IsRead body
Accepted (delete_task id) = Unit
Accepted (undecodable handler status) = ⊥
Accepted (list_audit query) = IsRead query
Accepted healthz = Unit
Accepted readyz = Unit
Accepted openapi_json = Unit
Accepted swagger_ui = Unit
Accepted metrics = Unit

-- The statuses that a route can answer with and the document does not name.
abbrev pub undocumented : Endpoint → List ℕ
undocumented (login body) = 500 ∷ []
undocumented (list_tasks query) = 401 ∷ 500 ∷ []
undocumented (create_task body) = 401 ∷ 500 ∷ []
undocumented (get_task id) = 401 ∷ 500 ∷ []
undocumented (update_task id body) = 400 ∷ 401 ∷ 500 ∷ []
undocumented (delete_task id) = 401 ∷ 500 ∷ []
undocumented (undecodable handler status) = []
undocumented (list_audit query) = 401 ∷ 500 ∷ []
undocumented healthz = []
undocumented readyz = []
undocumented openapi_json = 200 ∷ []
undocumented swagger_ui = 307 ∷ []
undocumented metrics = 200 ∷ []

abbrev pub documented : Option Operation → List ℕ
documented none = []
documented (some o) = map (λ (r : ℕ × Option String). r.0) o.responses

abbrev pub statuses : Endpoint → List ℕ
statuses e = documented (operation e) ++ undocumented e

module _ (P : Platform) where
  abbrev status_of : Reply P.DateTime → ℕ
  status_of reply = reply.0

  -- A route for users, behind its extractor of the user.
  user-StatusIn :
      (ss : List ℕ) (state : AppState) (headers : Headers) (k : AuthUser → App P (Reply P.DateTime))
      (w : P.World)
      → OneOf 401 ss
      → ((user : AuthUser) (w' : P.World) → StatusIn ss status_of (k user w'))
      → StatusIn ss status_of ((auth_user P state.config headers >>= k) w)
  user-StatusIn ss state headers k w h rest =
      then-StatusIn ss (auth_user P state.config headers) k status_of w
        (auth_user-FailsWith P ss state.config headers w h) rest

  ready-StatusIn :
      (r : Except AppError Unit × P.World)
      → StatusIn
          (200 ∷ 503 ∷ [])
          status_of
          ((run (λ _. ready_status P r) >>= λ x. pure (x.0, health x.1)) r.1)
  ready-StatusIn (ok t, w) = record { answered = inl refl }
  ready-StatusIn (err e, w) = record { answered = inr (inl refl) }

  answer-StatusIn :
      (state : AppState) (headers : Headers) (e : Endpoint) (w : P.World)
      → Accepted e
      → StatusIn (statuses e) status_of (answer P state headers e w)
  unfolding answer Handlers.list_tasks Handlers.get_task Handlers.list_audit Handlers.readyz
  answer-StatusIn state headers (login (ok req)) w a =
      reply-StatusIn P _ (Handlers.login P state req) 200 session w
        (login-FailsWith P _ (inr (inr (inl refl))) state req w (inr (inl refl))) (inl refl)
  answer-StatusIn state headers (login (err st)) w a = absurd a
  answer-StatusIn state headers (list_tasks (ok p)) w a =
      user-StatusIn _ state headers _ w (inr (inl refl)) (λ user w₁.
        reply-StatusIn P _ (Handlers.list_tasks P user p) 200 tasks w₁
          (list_tasks-FailsWith P _ (inr (inr (inl refl))) (clamp_limit p.limit)
            (clamp_offset p.offset) w₁)
          (inl refl))
  answer-StatusIn state headers (list_tasks (err st)) w a = absurd a
  answer-StatusIn state headers (create_task (ok input)) w a =
      user-StatusIn _ state headers _ w (inr (inr (inl refl))) (λ user w₁.
        bind-StatusIn _ (Handlers.create_task P user input) _ (λ r. r.0) status_of w₁
          (create_task-StatusIn P _ (inr (inr (inr (inl refl)))) user input w₁ (inl refl)
            (inr (inl refl)))
          (λ r w₂ h. record { answered = h }))
  answer-StatusIn state headers (create_task (err st)) w a = absurd a
  answer-StatusIn state headers (get_task id) w a =
      user-StatusIn _ state headers _ w (inr (inr (inl refl))) (λ user w₁.
        reply-StatusIn P _ (Handlers.get_task P user id) 200 task w₁
          (existing_task-FailsWith P _ (inr (inr (inr (inl refl)))) id w₁ (inr (inl refl)))
          (inl refl))
  answer-StatusIn state headers (update_task id (ok input)) w a =
      user-StatusIn _ state headers _ w (inr (inr (inr (inr (inl refl))))) (λ user w₁.
        reply-StatusIn P _ (Handlers.update_task P user id input) 200 task w₁
          (update_task_lem P _ (inr (inr (inr (inr (inr (inl refl)))))) user id input w₁
            (inr (inr (inr (inl refl)))) (inr (inl refl)) (inr (inr (inl refl))))
          (inl refl))
  answer-StatusIn state headers (update_task id (err st)) w a = absurd a
  answer-StatusIn state headers (delete_task id) w a =
      user-StatusIn _ state headers _ w (inr (inr (inr (inl refl)))) (λ user w₁.
        bind-StatusIn _ (Handlers.delete_task P user id) _ (λ k. k) status_of w₁
          (delete_task-StatusIn P _ (inr (inr (inr (inr (inl refl))))) user id w₁ (inl refl)
            (inr (inl refl)) (inr (inr (inl refl))))
          (λ r w₂ h. record { answered = h }))
  answer-StatusIn state headers (undecodable handler status) w a = absurd a
  answer-StatusIn state headers (list_audit (ok q)) w a =
      then-StatusIn _ (admin_user P state.config headers) _ status_of w
        (admin_user-FailsWith P _ state.config headers w (inr (inr (inl refl))) (inr (inl refl)))
        (λ user w₁.
          reply-StatusIn P _ (Handlers.list_audit P user q) 200 events w₁
            (list_audit-FailsWith P _ (inr (inr (inr (inl refl)))) q.actor q.action
              (clamp_limit q.limit) w₁)
            (inl refl))
  answer-StatusIn state headers (list_audit (err st)) w a = absurd a
  answer-StatusIn state headers healthz w a = record { answered = inl refl }
  answer-StatusIn state headers readyz w a = record {
    answered = (ready-StatusIn (Db.ping P w)).answered;
  }
  answer-StatusIn state headers openapi_json w a = record { answered = inl refl }
  answer-StatusIn state headers swagger_ui w a = record { answered = inl refl }
  answer-StatusIn state headers metrics w a = record { answered = inl refl }

  into_response-OneOf :
      (ss : List ℕ) (r : Except AppError (Reply P.DateTime) × P.World)
      → StatusIn ss status_of r
      → OneOf (into_response P r).0.0 ss
  unfolding error_response
  into_response-OneOf ss (ok reply, w) h = h.answered
  into_response-OneOf ss (err e, w) h = h.answered

  -- A route whose path, query and body were not rejected by their extractors answers with a status
  -- that the document names for it, or with one that `undocumented` names: 500, unless it is a
  -- health check; 401, where it takes a user; 400, where it updates a task; and for the routes that
  -- the document leaves out, 307 for the redirect and 200 for the others.
  pub route-statuses :
      (state : AppState) (headers : Headers) (e : Endpoint) (w : P.World)
      → Accepted e
      → OneOf (route P state (record { headers = headers; endpoint = e }) w).0.0 (statuses e)
  unfolding route
  route-statuses state headers e w a =
      into_response-OneOf (statuses e) (answer P state headers e w)
        (answer-StatusIn state headers e w a)
