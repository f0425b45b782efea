-- ===== src/Api/Concurrent/Replies.antt =====
-- Every reply that acknowledges a change stands for an event of the audit log, where requests are
-- served together (src/lib.rs over src/handlers.rs).
use rhel9_app_micro.Prelude.{ℕ, Bool, true, false, List, [], ◌∷◌, map, if◌then◌else◌}
use rhel9_app_micro.Outcome.{Except, ok, err, Act}
use rhel9_app_micro.Process.{Process, finish, step, atom, ◌>>=◌, interleave}
use rhel9_app_micro.Process.Leaves.{Leaves, Leaves-then, Leaves-atom, LeavesAll, interleave-Leaves}
use rhel9_app_micro.Errors.{AppError, too_many_requests}
use rhel9_app_micro.Platform.{Platform}
use rhel9_app_micro.Extract.{Headers}
use rhel9_app_micro.Observe.{Server, client_key}
use rhel9_app_micro.Db.Lawful.{Tables, Same, IsLawful}
use rhel9_app_micro.Db.Reads.{Same-refl, Same-trans}
use rhel9_app_micro.Handlers.{AppState}
use rhel9_app_micro.Api.{
  undecodable, Endpoint, login, list_tasks, create_task, get_task, update_task, delete_task,
  list_audit, healthz, readyz, openapi_json, swagger_ui, metrics, Request, Reply, refuse,
}
use rhel9_app_micro.Api.AuditLog.{Grows-trans}
use rhel9_app_micro.Api.Answers.{client_key-Same}
use rhel9_app_micro.Api.Steps.{
  Steps, answer_steps, respond, on_world, admit, timed, count, observe, limited_steps, measure,
  handle_steps,
}
use rhel9_app_micro.Api.Concurrent.Recorded.{Done-Grows, change_of, R, unmoved}
use rhel9_app_micro.Api.Concurrent.Acknowledged.{Q, answer_steps-Leaves}

module _ (P : Platform) (T : Tables P) (L : IsLawful P T) (state : AppState) where
  -- An error acknowledges nothing.
  refuse-Recorded :
      (headers : Headers) (endpoint : Endpoint) (e : AppError) (w : P.World)
      → Q P T L state headers endpoint (refuse e) w
  refuse-Recorded headers (login body) e w = tt
  refuse-Recorded headers (list_tasks query) e w = tt
  refuse-Recorded headers (create_task body) e w = tt
  refuse-Recorded headers (get_task id) e w = tt
  refuse-Recorded headers (update_task id body) e w = tt
  refuse-Recorded headers (delete_task id) e w = tt
  refuse-Recorded headers (undecodable handler status) e w = tt
  refuse-Recorded headers (list_audit query) e w = tt
  refuse-Recorded headers healthz e w = tt
  refuse-Recorded headers readyz e w = tt
  refuse-Recorded headers openapi_json e w = tt
  refuse-Recorded headers swagger_ui e w = tt
  refuse-Recorded headers metrics e w = tt

  -- The same of the whole server.
  abbrev pub Moves : Server P → Server P → Type 0
  Moves s s' = R P T s.world s'.world

  abbrev pub Acknowledges : Request → Reply P.DateTime → Server P → Type 0
  Acknowledges req reply s = Q P T L state req.headers req.endpoint reply s.world

  on_world-Leaves :
      {A : Type 0} (S : A → P.World → Type 0) (p : Steps P A) (s : Server P)
      → Leaves (R P T) S p s.world
      → Leaves Moves (λ a t. S a t.world) (on_world P p) s
  unfolding on_world Leaves
  on_world-Leaves S (finish (ok a)) s h = h
  on_world-Leaves S (finish (err e)) s h = tt
  on_world-Leaves S (step effect next) s h =
      λ s' r. ((h s'.world r).0, on_world-Leaves S (next s'.world) _ (h s'.world r).1)

  respond-Leaves :
      (req : Request) (p : Process AppError (Server P) (Reply P.DateTime)) (s : Server P)
      → Leaves Moves (Acknowledges req) p s
      → Leaves Moves (Acknowledges req) (respond P p) s
  unfolding respond Leaves
  respond-Leaves req (finish (ok reply)) s h = h
  respond-Leaves req (finish (err e)) s h = refuse-Recorded req.headers req.endpoint e s.world
  respond-Leaves req (step effect next) s h =
      λ s' r. ((h s' r).0, respond-Leaves req (next s') (effect s') (h s' r).1)

  admitted-Leaves :
      (req : Request) (allowed : Bool) (s : Server P)
      → Leaves Moves
          (Acknowledges req)
          (if allowed
            then respond P (on_world P (answer_steps P state req.headers req.endpoint))
            else finish (ok (refuse too_many_requests)))
          s
  unfolding Leaves
  admitted-Leaves req true s = respond-Leaves req _ s (
      on_world-Leaves (Q P T L state req.headers req.endpoint) _ s
        (answer_steps-Leaves P T L state req.headers req.endpoint s.world))
  admitted-Leaves req false s = refuse-Recorded req.headers req.endpoint too_many_requests s.world

  -- A step that changes no table, behind the reply.
  after_reply :
      {A : Type 0} (req : Request) (reply : Reply P.DateTime) (m : Act AppError (Server P) A)
      (k : A → Process AppError (Server P) (Reply P.DateTime)) (s : Server P)
      → Acknowledges req reply s
      → ((v : Server P) → Same P T v.world (m v).1.world)
      → ((a : A) (v : Server P)
          → Acknowledges req reply v
          → Leaves Moves (Acknowledges req) (k a) v)
      → Leaves Moves (Acknowledges req) (atom m >>= k) s
  unfolding ◌>>=◌ Leaves
  after_reply req reply m k s h quiet rest w' r =
      let moved = unmoved P T (quiet w') in
      (moved, go (m w').0 (m w').1 (keep w'.world _ moved (keep s.world w'.world r h)))
    where
      keep :
          (v w : P.World)
          → R P T v w
          → Q P T L state req.headers req.endpoint reply v
          → Q P T L state req.headers req.endpoint reply w
      keep v w = Done-Grows P T state.config req.headers (change_of P T req.endpoint reply) v w

      go :
          (o : Except AppError _) (v : Server P)
          → Acknowledges req reply v
          → Leaves Moves (Acknowledges req) (finish o >>= k) v
      go (ok a) v g = rest a v g
      go (err e) v g = tt

  measure-Leaves :
      (req : Request) (start : P.Monotonic) (reply : Reply P.DateTime) (s : Server P)
      → Acknowledges req reply s
      → Leaves Moves (Acknowledges req) (measure P req start reply) s
  unfolding measure timed count observe Leaves
  measure-Leaves req start reply s h =
      after_reply req reply (timed P (P.elapsed start)) _ s h (λ v. L.elapsed start v.world)
        λ latency v₁ h₁.
          after_reply req reply (count P req reply.0) _ v₁ h₁ (λ v. Same-refl P T v.world)
            λ a v₂ h₂.
              after_reply req reply (observe P req latency) _ v₂ h₂ (λ v. Same-refl P T v.world)
                λ b v₃ h₃. h₃

  limited_steps-Leaves :
      (req : Request) (s : Server P) → Leaves Moves (Acknowledges req) (limited_steps P state req) s
  unfolding limited_steps admit
  limited_steps-Leaves req s =
      Leaves-atom Moves (Acknowledges req) (admit P state.config req.headers) _ s
        (λ v.
          let w₁ = (client_key P state.config req.headers v.world).1 in
          unmoved P T (
            Same-trans P T (client_key-Same P T L state req.headers v.world)
              (Same-trans P T (L.instant_now w₁) (L.instant_now (P.instant_now w₁).1))))
        (λ allowed v s₁ e. admitted-Leaves req allowed s₁)

  handle_steps-Leaves :
      (req : Request) (s : Server P) → Leaves Moves (Acknowledges req) (handle_steps P state req) s
  unfolding handle_steps timed
  handle_steps-Leaves req s =
      Leaves-atom Moves (Acknowledges req) (timed P P.monotonic_now) _ s
        (λ v. unmoved P T (L.monotonic_now v.world))
        (λ start v s₁ e.
          Leaves-then Moves (Acknowledges req) (Acknowledges req) _ _ s₁
            (limited_steps-Leaves req s₁) (λ reply s₂ h. measure-Leaves req start reply s₂ h))

  all-Leaves :
      (reqs : List Request) (s : Server P)
      → LeavesAll Moves Acknowledges reqs (map (handle_steps P state) reqs) s
  all-Leaves [] s = tt
  all-Leaves (req ∷ reqs) s = (handle_steps-Leaves req s, all-Leaves reqs s)

  -- Each request that has its reply has in the log what the reply acknowledges.
  abbrev pub AllRecorded :
      List Request → List (Process AppError (Server P) (Reply P.DateTime)) → Server P → Type 0
  AllRecorded [] ps s = Unit
  AllRecorded (req ∷ reqs) [] s = ⊥
  AllRecorded (req ∷ reqs) (finish (ok reply) ∷ ps) s =
      Acknowledges req reply s × AllRecorded reqs ps s
  AllRecorded (req ∷ reqs) (p ∷ ps) s = AllRecorded reqs ps s

  recorded_so_far :
      (reqs : List Request) (ps : List (Process AppError (Server P) (Reply P.DateTime)))
      (s : Server P)
      → LeavesAll Moves Acknowledges reqs ps s
      → AllRecorded reqs ps s
  unfolding Leaves
  recorded_so_far [] ps s h = tt
  recorded_so_far (req ∷ reqs) [] s h = h
  recorded_so_far (req ∷ reqs) (finish (ok reply) ∷ ps) s h = (h.0, recorded_so_far reqs ps s h.1)
  recorded_so_far (req ∷ reqs) (finish (err e) ∷ ps) s h = recorded_so_far reqs ps s h.1
  recorded_so_far (req ∷ reqs) (step effect next ∷ ps) s h = recorded_so_far reqs ps s h.1

  -- Over a lawful database, in whatever order the steps of requests that are served together follow
  -- one another: each request whose reply is a created task, an updated task, or a deletion without
  -- an error has an event in the audit log, with its action and the task's id, of a user that its
  -- headers authenticate.
  pub requests-AllRecorded :
      (reqs : List Request) (schedule : List ℕ) (s : Server P)
      → let (ps, s') = interleave schedule (map (handle_steps P state) reqs) s in
        AllRecorded reqs ps s'
  requests-AllRecorded reqs schedule s =
      let (ps, s') = interleave schedule (map (handle_steps P state) reqs) s in
      recorded_so_far reqs ps s' (
        interleave-Leaves Moves Acknowledges (λ u v w. Grows-trans P T u.world v.world w.world)
          (λ req reply v w r h.
            Done-Grows P T state.config req.headers (change_of P T req.endpoint reply) v.world
              w.world r h)
          (λ w. unmoved P T (Same-refl P T w.world)) schedule reqs (map (handle_steps P state) reqs)
          s (all-Leaves reqs s))
