-- ===== src/Api/Answers.antt =====
-- Every route has one of the effects, and so has the whole application (src/lib.rs,
-- `build_router`).
use rhel9_app_micro.Prelude.{String, inl, inr, Option, none, some, Bool, Bool-cases}
use rhel9_app_micro.Outcome.{Except, ok, err, Act}
use rhel9_app_micro.Errors.{AppError}
use rhel9_app_micro.Platform.{Platform, Claims}
use rhel9_app_micro.Extract.{Headers, admin_user}
use rhel9_app_micro.Db.Lawful.{Tables, Same, IsLawful}
use rhel9_app_micro.Db.Reads.{Same-refl, Same-trans}
use rhel9_app_micro.Api.Quiet.{
  admin_user-Quiet, login-Quiet, list_tasks-Quiet, list_audit-Quiet, get_task-Quiet, readyz-Same,
  decode_token-Quiet,
}
use rhel9_app_micro.Handlers
use rhel9_app_micro.Handlers.{AppState}
use rhel9_app_micro.Handlers.Create.{create_task-CreateOutcome}
use rhel9_app_micro.Handlers.Update.{update_task-UpdateOutcome}
use rhel9_app_micro.Handlers.Delete.{delete_task-DeleteOutcome}
use rhel9_app_micro.Api.{
  undecodable, Extracted, Endpoint, login, list_tasks, create_task, get_task, update_task,
  delete_task, list_audit, healthz, openapi_json, swagger_ui, metrics, readyz, Request, Reply,
  extracted, answer, into_response, route, limited, handle,
}
use rhel9_app_micro.Text.{trim}
use rhel9_app_micro.RateLimit
use rhel9_app_micro.Observe.{
  Server, header_token, decoded_key, token_key, client_key, rate_limit, track_metrics,
}
use rhel9_app_micro.Api.Effects.{
  Effect, quiet, Does, Effect-after, Effect-before, create-Does, update-Does, delete-Does,
  quiet-then, auth-then, change-then,
}

module _ (P : Platform) (T : Tables P) where
  module _ (L : IsLawful P T) (state : AppState) (headers : Headers) where
    same : (w : P.World) → Effect P T state.config headers w w
    same w = quiet (Same-refl P T w)

    extracted-Does :
        {A : Type 0} (x : Extracted A) (k : A → Act AppError P.World (Reply P.DateTime))
        (w : P.World)
        → ((a : A) → Does P T state.config headers w (k a w))
        → Does P T state.config headers w (extracted P x k w)
    extracted-Does (ok a) k w h = h a
    extracted-Does (err status) k w h = same w

    -- Whatever the request, its answer comes with one of the four effects.
    pub answer-Does :
        (endpoint : Endpoint) (w : P.World)
        → Does P T state.config headers w (answer P state headers endpoint w)
    unfolding answer
    answer-Does (login body) w = extracted-Does body _ w λ req.
        quiet-then P T state.config headers L (Handlers.login P state req) _ w
          (login-Quiet P T L state req w) (λ r w'. same w')
    answer-Does (list_tasks query) w = auth-then P T state.config headers L _ w λ user w₁ a.
        extracted-Does query _ w₁ λ p.
          quiet-then P T state.config headers L (Handlers.list_tasks P user p) _ w₁
            (list_tasks-Quiet P T L user p w₁) (λ r w'. same w')
    answer-Does (create_task body) w = auth-then P T state.config headers L _ w λ user w₁ a.
        extracted-Does body _ w₁ λ input.
          change-then P T state.config headers L (Handlers.create_task P user input) _ w₁ (
            create-Does P T state.config headers user a w₁ input _
              (create_task-CreateOutcome P T L user input w₁))
    answer-Does (get_task id) w = auth-then P T state.config headers L _ w λ user w₁ a.
        quiet-then P T state.config headers L (Handlers.get_task P user id) _ w₁
          (get_task-Quiet P T L user id w₁) (λ r w'. same w')
    answer-Does (update_task id body) w = auth-then P T state.config headers L _ w λ user w₁ a.
        extracted-Does body _ w₁ λ input.
          change-then P T state.config headers L (Handlers.update_task P user id input) _ w₁ (
            update-Does P T state.config headers user a w₁ id input _
              (update_task-UpdateOutcome P T L user id input w₁))
    answer-Does (delete_task id) w = auth-then P T state.config headers L _ w λ user w₁ a.
        change-then P T state.config headers L (Handlers.delete_task P user id) _ w₁ (
          delete-Does P T state.config headers user a w₁ id _
            (delete_task-DeleteOutcome P T L user id w₁))
    answer-Does (undecodable handler status) w =
        auth-then P T state.config headers L _ w λ user w₁ a. same w₁
    answer-Does (list_audit query) w =
        quiet-then P T state.config headers L (admin_user P state.config headers) _ w
          (admin_user-Quiet P T L state.config headers w)
          λ admin w₁. extracted-Does query _ w₁ λ q.
            quiet-then P T state.config headers L (Handlers.list_audit P admin q) _ w₁
              (list_audit-Quiet P T L admin q w₁) (λ r w'. same w')
    answer-Does healthz w = same w
    answer-Does openapi_json w = same w
    answer-Does swagger_ui w = same w
    answer-Does metrics w = same w
    answer-Does readyz w = quiet (readyz-Same P T L w)

    pub route-Does :
        (endpoint : Endpoint) (w : P.World)
        → Effect P T state.config headers w
            (route P state (record { headers = headers; endpoint = endpoint }) w).1
    unfolding route
    route-Does endpoint w = go (answer P state headers endpoint w) (answer-Does endpoint w)
      where
        go :
            (r : Except AppError (Reply P.DateTime) × P.World)
            → Does P T state.config headers w r
            → Effect P T state.config headers w (into_response P r).1
        go (ok reply, w') d = d
        go (err e, w') d = d

    pub client_key-Same : (w : P.World) → Same P T w (client_key P state.config headers w).1
    unfolding client_key
    client_key-Same w = go (header_token (headers "authorization"))
      where
        decoded :
            (r : Except AppError Claims × P.World)
            → Same P T w r.1
            → Same P T w (decoded_key P headers r).1
        decoded (ok claims, w') s = s
        decoded (err e, w') s = s

        go : (o : Option String) → Same P T w (token_key P state.config headers o w).1
        go none = Same-refl P T w
        go (some tok) = decoded _ (decode_token-Quiet P T L state.config.jwt_secret (trim tok) w)

    -- So do the routes under the rate limit, a request that it refuses included.
    limited-Effect :
        (endpoint : Endpoint) (s : Server P)
        → Effect P T state.config headers s.world
            (limited P state (record { headers = headers; endpoint = endpoint }) s).1.world
    unfolding rate_limit
    limited-Effect endpoint s = elim (Bool-cases allowed) [
      | inl admitted ↦
          rw admitted (Effect-after P T state.config headers keyed (route-Does endpoint w₃))
      | inr refused ↦ rw refused (quiet keyed)
    ]
      where
        w₁ : P.World
        w₁ = (client_key P state.config headers s.world).1

        w₃ : P.World
        w₃ = (P.instant_now (P.instant_now w₁).1).1

        keyed : Same P T s.world w₃
        keyed =
            Same-trans P T (client_key-Same s.world)
              (Same-trans P T (L.instant_now w₁) (L.instant_now (P.instant_now w₁).1))

        allowed : Bool
        allowed =
            (RateLimit.check P.governor s.limiter (client_key P state.config headers s.world).0
              (P.instant_now w₁).0 (P.instant_now (P.instant_now w₁).1).0).0

    -- So does the whole application.
    pub handle-Effect :
        (endpoint : Endpoint) (s : Server P)
        → Effect P T state.config headers s.world
            (handle P state (record { headers = headers; endpoint = endpoint }) s).1.world
    unfolding handle track_metrics
    handle-Effect endpoint s =
        let (start, w) = P.monotonic_now s.world in
        let req : Request = record { headers = headers; endpoint = endpoint } in
        let s' = (limited P state req (record s { world = w })).1 in
        Effect-after P T state.config headers (L.monotonic_now s.world) (
          Effect-before P T state.config headers (L.elapsed start s'.world)
            (limited-Effect endpoint (record s { world = w })))
