-- ===== src/Api/Steps/Alone.antt =====
-- Cutting the requests into steps changes nothing of what one request does by itself.
use rhel9_app_micro.Prelude.{String, ◌<>◌, ◌≡◌, refl, ◌∙◌, ap, Bool, true, false, if◌then◌else◌}
use rhel9_app_micro.Outcome.{Except, ok, err, Act, pure, raise, lift, map_err, run, continue}
use rhel9_app_micro.Process.{Process, finish, step, run_alone, ◌>>=◌}
use rhel9_app_micro.Process.Alone.{
  run_alone-bind, Performs, atom-Performs, ok-Performs, err-Performs, if-Performs, bind-Performs,
}
use rhel9_app_micro.Outcome
use rhel9_app_micro.Models.{
  Task, CreateTask, UpdateTask, status_as_str, validate_create, validate_update,
}
use rhel9_app_micro.Errors.{AppError, bad_request, forbidden, too_many_requests}
use rhel9_app_micro.Platform.{Platform}
use rhel9_app_micro.RateLimit
use rhel9_app_micro.Extract.{Headers, AuthUser, auth_user, admin_user}
use rhel9_app_micro.Observe.{Server, client_key, rate_limit, track_metrics}
use rhel9_app_micro.Db
use rhel9_app_micro.Handlers
use rhel9_app_micro.Handlers.{AppState, existing_task, is_stranger}
use rhel9_app_micro.Document.{api_doc}
use rhel9_app_micro.Api.{
  undecodable, Extracted, Endpoint, login, list_tasks, create_task, get_task, update_task,
  delete_task, list_audit, healthz, openapi_json, swagger_ui, metrics, readyz, Request, Reply,
  session, task, tasks, events, plain, document, health, redirect, extracted, answer, into_response,
  route, limited, handle, refuse,
}
use rhel9_app_micro.Api.Steps.{
  Steps, create_steps, update_rest, update_steps, delete_rest, delete_steps, extracted_steps,
  answer_steps, respond, on_world, admit, timed, count, observe, limited_steps, measure,
  handle_steps,
}

module _ (P : Platform) where
  create_steps-Performs :
      (user : AuthUser) (input : CreateTask)
      → Performs (create_steps P user input) (Handlers.create_task P user input)
  unfolding create_steps Handlers.create_task
  create_steps-Performs user input =
      bind-Performs _ _ (atom-Performs (map_err bad_request (lift (validate_create input)))) λ v.
        bind-Performs _ _ (atom-Performs (Db.create_task P user.username input))
          λ t. bind-Performs _ _ (atom-Performs _) λ a. ok-Performs (201, t)

  update_rest-Performs :
      (user : AuthUser) (existing : Task P.DateTime) (input : UpdateTask)
      → Performs (update_rest P user existing input) (
          Outcome.◌>>=◌ (Db.update_task P existing input) (λ updated.
            Outcome.◌>>◌
              (Db.record_audit P user.username "update" "task" updated.id
                ("status=" <> status_as_str updated.status))
              (pure updated)))
  unfolding update_rest
  update_rest-Performs user existing input =
      bind-Performs _ _ (atom-Performs (Db.update_task P existing input))
        λ t. bind-Performs _ _ (atom-Performs _) λ a. ok-Performs t

  update_steps-Performs :
      (user : AuthUser) (id : String) (input : UpdateTask)
      → Performs (update_steps P user id input) (Handlers.update_task P user id input)
  unfolding update_steps Handlers.update_task
  update_steps-Performs user id input =
      bind-Performs _ _ (atom-Performs (map_err bad_request (lift (validate_update input)))) λ v.
        bind-Performs _ _ (atom-Performs (existing_task P id)) λ existing.
          if-Performs (is_stranger P user existing)
            (err-Performs (forbidden "you may only modify your own tasks"))
            (update_rest-Performs user existing input)

  delete_steps-Performs :
      (user : AuthUser) (id : String)
      → Performs (delete_steps P user id) (Handlers.delete_task P user id)
  unfolding delete_steps delete_rest Handlers.delete_task
  delete_steps-Performs user id = bind-Performs _ _ (atom-Performs (existing_task P id)) λ existing.
      if-Performs (is_stranger P user existing)
        (err-Performs (forbidden "you may only delete your own tasks"))
        (bind-Performs _ _ (atom-Performs (Db.delete_task P id))
          λ b. bind-Performs _ _ (atom-Performs _) λ a. ok-Performs 204)

  extracted-Performs :
      {A : Type 0} (x : Extracted A) (k : A → Steps P (Reply P.DateTime))
      (f : A → Act AppError P.World (Reply P.DateTime))
      → ((a : A) → Performs (k a) (f a))
      → Performs (extracted_steps P x k) (extracted P x f)
  extracted-Performs (ok a) k f h = h a
  extracted-Performs (err status) k f h = ok-Performs (status, plain)

  -- A call, and the reply made of what it returns.
  reply-Performs :
      {A : Type 0} {p : Steps P A} {m : Act AppError P.World A} (reply : A → Reply P.DateTime)
      → Performs p m
      → Performs (p >>= λ a. finish (ok (reply a))) (Outcome.◌>>=◌ m (λ a. pure (reply a)))
  reply-Performs reply h = bind-Performs _ _ h λ a. ok-Performs (reply a)

  answer_steps-Performs :
      (state : AppState) (headers : Headers) (endpoint : Endpoint)
      → Performs (answer_steps P state headers endpoint) (answer P state headers endpoint)
  unfolding answer_steps answer
  answer_steps-Performs state headers (login body) =
      extracted-Performs body _ _
        λ req. reply-Performs (λ r. (200, session r)) (atom-Performs (Handlers.login P state req))
  answer_steps-Performs state headers (list_tasks query) =
      bind-Performs _ _ (atom-Performs (auth_user P state.config headers)) λ user.
        extracted-Performs query _ _
          λ p. reply-Performs (λ ts. (200, tasks ts)) (atom-Performs (Handlers.list_tasks P user p))
  answer_steps-Performs state headers (create_task body) =
      bind-Performs _ _ (atom-Performs (auth_user P state.config headers)) λ user.
        extracted-Performs body _ _
          λ input. reply-Performs (λ r. (r.0, task r.1)) (create_steps-Performs user input)
  answer_steps-Performs state headers (get_task id) =
      bind-Performs _ _ (atom-Performs (auth_user P state.config headers))
        λ user. reply-Performs (λ t. (200, task t)) (atom-Performs (Handlers.get_task P user id))
  answer_steps-Performs state headers (update_task id body) =
      bind-Performs _ _ (atom-Performs (auth_user P state.config headers)) λ user.
        extracted-Performs body _ _
          λ input. reply-Performs (λ t. (200, task t)) (update_steps-Performs user id input)
  answer_steps-Performs state headers (delete_task id) =
      bind-Performs _ _ (atom-Performs (auth_user P state.config headers))
        λ user. reply-Performs (λ status. (status, plain)) (delete_steps-Performs user id)
  answer_steps-Performs state headers (undecodable handler status) =
      bind-Performs _ _ (atom-Performs (auth_user P state.config headers))
        λ user. ok-Performs (status, plain)
  answer_steps-Performs state headers (list_audit query) =
      bind-Performs _ _ (atom-Performs (admin_user P state.config headers)) λ admin.
        extracted-Performs query _ _ λ q.
          reply-Performs (λ es. (200, events es)) (atom-Performs (Handlers.list_audit P admin q))
  answer_steps-Performs state headers healthz =
      ok-Performs (Handlers.healthz.0, health Handlers.healthz.1)
  answer_steps-Performs state headers openapi_json = ok-Performs (200, document api_doc)
  answer_steps-Performs state headers swagger_ui =
      ok-Performs (307, redirect "/api-docs/openapi.json")
  answer_steps-Performs state headers metrics = ok-Performs (200, plain)
  answer_steps-Performs state headers readyz =
      reply-Performs (λ r. (r.0, health r.1)) (atom-Performs (run (Handlers.readyz P)))

  -- `respond` and `on_world`, on what a process does alone.
  run_alone-on_world :
      {A : Type 0} (p : Steps P A) (s : Server P)
      → run_alone (on_world P p) s
        ≡ ((run_alone p s.world).0, record s { world = (run_alone p s.world).1 })
  unfolding run_alone on_world
  run_alone-on_world (finish r) s = refl
  run_alone-on_world (step effect next) s =
      run_alone-on_world (next s.world) (record s { world = effect s.world })

  abbrev replied : {W T : Type 0} → Except AppError (Reply T) × W → Reply T × W
  replied (ok reply, w) = (reply, w)
  replied (err e, w) = (refuse e, w)

  run_alone-respond :
      {W T : Type 0} (p : Process AppError W (Reply T)) (w : W)
      → run_alone (respond P p) w ≡ (ok (replied (run_alone p w)).0, (replied (run_alone p w)).1)
  unfolding run_alone respond
  run_alone-respond (finish (ok reply)) w = refl
  run_alone-respond (finish (err e)) w = refl
  run_alone-respond (step effect next) w = run_alone-respond (next w) (effect w)

  into_response-replied :
      (r : Except AppError (Reply P.DateTime) × P.World) (s : Server P)
      → replied (r.0, record s { world = r.1 })
        ≡ ((into_response P r).0, record s { world = (into_response P r).1 })
  into_response-replied (ok reply, w) s = refl
  into_response-replied (err e, w) s = refl

  routed_alone :
      (state : AppState) (req : Request) (s : Server P)
      → run_alone (respond P (on_world P (answer_steps P state req.headers req.endpoint))) s
        ≡ (ok (route P state req s.world).0, record s { world = (route P state req s.world).1 })
  unfolding route
  routed_alone state req s =
      run_alone-respond (on_world P (answer_steps P state req.headers req.endpoint)) s
      ∙ ap
          (λ (x : Except AppError (Reply P.DateTime) × Server P). (ok (replied x).0, (replied x).1))
          (run_alone-on_world (answer_steps P state req.headers req.endpoint) s
            ∙ ap
                (λ (y : Except AppError (Reply P.DateTime) × P.World).
                  (y.0, record s { world = y.1 }))
                ((answer_steps-Performs state req.headers req.endpoint).alone s.world))
      ∙ ap (λ (z : Reply P.DateTime × Server P). (ok z.0, z.1))
          (into_response-replied (answer P state req.headers req.endpoint s.world) s)

  -- What the limiter's verdict makes of the request.
  abbrev decided : AppState → Request → Bool → Server P → Reply P.DateTime × Server P
  decided state req allowed s =
      if allowed
      then ((route P state req s.world).0, record s { world = (route P state req s.world).1 })
      else (refuse too_many_requests, s)

  decided-alone :
      (state : AppState) (req : Request) (allowed : Bool) (s : Server P)
      → run_alone
          (if allowed
            then respond P (on_world P (answer_steps P state req.headers req.endpoint))
            else finish (ok (refuse too_many_requests)))
          s
        ≡ (ok (decided state req allowed s).0, (decided state req allowed s).1)
  unfolding run_alone
  decided-alone state req true s = routed_alone state req s
  decided-alone state req false s = refl

  limited_steps-alone :
      (state : AppState) (req : Request) (s : Server P)
      → run_alone (limited_steps P state req) s
        ≡ (ok (limited P state req s).0, (limited P state req s).1)
  unfolding run_alone ◌>>=◌ limited_steps admit rate_limit
  limited_steps-alone state req s =
      let w₁ = (client_key P state.config req.headers s.world).1 in
      let (allowed, limiter) =
        RateLimit.check P.governor s.limiter (client_key P state.config req.headers s.world).0
          (P.instant_now w₁).0 (P.instant_now (P.instant_now w₁).1).0 in
      decided-alone state req allowed
        (record s { limiter = limiter; world = (P.instant_now (P.instant_now w₁).1).1 })

  -- One request, run with nothing in between, does what `handle` does: the cut is into its own
  -- steps, with none left out and none added.
  pub handle_steps-alone :
      (state : AppState) (req : Request) (s : Server P)
      → run_alone (handle_steps P state req) s
        ≡ (ok (handle P state req s).0, (handle P state req s).1)
  unfolding run_alone ◌>>=◌ handle_steps timed measure count observe handle track_metrics
  handle_steps-alone state req s =
      let (start, w) = P.monotonic_now s.world in
      let s₁ : Server P = record s { world = w } in
      run_alone-bind (limited_steps P state req) (measure P req start) s₁
      ∙ ap (continue (λ reply. run_alone (measure P req start reply)))
          (limited_steps-alone state req s₁)
