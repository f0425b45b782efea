-- ===== src/Startup.antt =====
-- src/main.rs: the process from its start to its exit, with `build_pool` of src/db.rs,
-- `AppState::new` of src/state.rs and `install_metrics` of src/observe.rs.
mod Outside
pub mod Stages
pub mod Outcome
pub mod Tables
pub use Outside.*
use rhel9_app_micro.Prelude.{
  ◌≡◌, refl, ℕ, String, ◌<>◌, str_eq, Bool, true, false, Option, none, some, List, [], ◌∷◌, ◌++◌,
  unwrap_or, if◌then◌else◌,
}
use rhel9_app_micro.Outcome.{Except, ok, err, Act, pure, raise, map_err, ◌>>=◌, ◌>>◌}
use rhel9_app_micro.Text.{is_empty}
use rhel9_app_micro.HashMap.{Map}
use rhel9_app_micro.Process.{Process}
use rhel9_app_micro.Models.{User}
use rhel9_app_micro.Errors.{AppError, internal, fmt}
use rhel9_app_micro.Config.{Config, from_env}
use rhel9_app_micro.RateLimit
use rhel9_app_micro.RateLimit.{RateLimiter}
use rhel9_app_micro.Platform.{Platform}
use rhel9_app_micro.Auth.{seed_users}
use rhel9_app_micro.Observe.{Server}
use rhel9_app_micro.Db.{App, init_schema}
use rhel9_app_micro.Handlers.{AppState}
use rhel9_app_micro.Api.{Request, Reply}
use rhel9_app_micro.Api.Steps.{handle_steps}

module _ (P : Platform) (H : Host P) where
  -- What the process has: the world, the filter of its log, and the log before that filter.
  pub record Boot : Type 0 where
    pub world : P.World
    pub filter : Option H.Filter
    pub log : List Event

  -- A part of `main`. It may end the process, with this exit code.
  abbrev pub Main : Type 0 → Type 0
  Main A = Act ℕ Boot A

  abbrev pub on_boot : {E A : Type 0} → Boot → Except E A × P.World → Except E A × Boot
  on_boot b (r, w) = (r, record b { world = w })

  abbrev pub on_host : {E A : Type 0} → Act E P.World A → Act E Boot A
  on_host m b = on_boot b (m b.world)

  abbrev pub note : Event → Boot → Boot
  note e b = record b { log = b.log ++ e ∷ [] }

  abbrev pub info : String → List (String × String) → Main Unit
  info message fields b =
      (ok tt, note (record { is_error = false; message = message; fields = fields }) b)

  abbrev pub error : String → List (String × String) → Main Unit
  error message fields b =
      (ok tt, note (record { is_error = true; message = message; fields = fields }) b)

  -- `match m { Ok(a) => a, Err(e) => { error!(error = %e, …, message); exit(1) } }`
  abbrev pub exit_on_error :
      {E A : Type 0}
      → String
      → List (String × String)
      → (E → String)
      → Except E A × Boot
      → Except ℕ A × Boot
  exit_on_error message fields show (ok a, b) = (ok a, b)
  exit_on_error message fields show (err e, b) =
      (do error message (("error", show e) ∷ fields); raise 1) b

  abbrev pub exit_unless :
      {E A : Type 0} → String → List (String × String) → (E → String) → Act E P.World A → Main A
  exit_unless message fields show m b = exit_on_error message fields show (on_host m b)

  -- `m.expect(…)`: a panic ends the process with 101.
  abbrev pub panic_on_error : {E A : Type 0} → Except E A × Boot → Except ℕ A × Boot
  panic_on_error (ok a, b) = (ok a, b)
  panic_on_error (err e, b) = (err 101, b)

  abbrev pub expect : {E A : Type 0} → Act E P.World A → Main A
  expect m b = panic_on_error (on_host m b)

  -- `init_tracing`; the format of the lines is left out.
  unfoldable pub init_tracing : Main Unit
  init_tracing b =
      let filter =
        unwrap_or (H.try_from_default_env b.world)
          (H.filter_new "info,secureledger=info,tower_http=warn") in
      (ok tt, record b { filter = some filter })

  abbrev pub report_dir : String → Except String Unit × Boot → Except ℕ Unit × Boot
  report_dir dir (ok t, b) = info "ensured DB directory" (("dir", dir) ∷ []) b
  report_dir dir (err e, b) =
      error "could not create DB directory (read-only rootfs?); continuing"
        (("error", e) ∷ ("dir", dir) ∷ []) b

  abbrev pub ensure_parent : Option String → Main Unit
  ensure_parent none = pure tt
  ensure_parent (some parent) = if is_empty parent then pure tt else λ b.
      report_dir parent (on_host (H.create_dir_all parent) b)

  -- `ensure_db_dir`
  unfoldable pub ensure_db_dir : String → Main Unit
  ensure_db_dir db_path =
      if str_eq db_path ":memory:" then pure tt else ensure_parent (H.parent db_path)

  -- `install_metrics`
  unfoldable pub install_metrics : Main H.PrometheusHandle
  install_metrics = expect H.install_recorder

  -- `build_pool`
  unfoldable pub build_pool : String → App P Unit
  build_pool path =
      let manager = if str_eq path ":memory:" then memory else file path in
      let max_size = if str_eq path ":memory:" then 1 else 8 in
      map_err (λ e. internal ("failed to build pool: " <> e)) (H.build manager max_size)

  -- `AppState::new`: what handlers read, and what the middlewares share.
  unfoldable pub new_state :
      Config → Map User → RateLimiter P.governor → P.World → AppState × Server P
  new_state config users rate_limiter w = (
    record { config = config; users = users },
    record { limiter = rate_limiter; counted = []; latencies = []; world = w },
  )

  -- `build_router`, as far as it is modelled: the handle is for the text of the metrics only.
  unfoldable pub build_router : AppState → H.PrometheusHandle → Router P
  build_router state metrics_handle req = handle_steps P state req

  -- `shutdown_signal`, from the signal on.
  unfoldable pub shutdown_signal : Wake → Boot → Boot
  shutdown_signal ctrl_c b = (info "received SIGINT" [] b).1
  shutdown_signal terminate b = (info "received SIGTERM" [] b).1

  abbrev pub on_wake : Option Wake → Boot → Boot
  on_wake none b = b
  on_wake (some wake) b = shutdown_signal wake b

  abbrev pub on_exit : Boot → Except String Unit × Option Wake × Server P → Except ℕ Unit × Boot
  on_exit b (ok t, wake, s) =
      info "shutdown complete" [] (on_wake wake (record b { world = s.world }))
  on_exit b (err e, wake, s) =
      exit_on_error "server error" [] (λ e. e) (err e, on_wake wake (record b { world = s.world }))

  pub on_wake-world : (wake : Option Wake) (b : Boot) → (on_wake wake b).world ≡ b.world
  unfolding shutdown_signal
  on_wake-world none b = refl
  on_wake-world (some ctrl_c) b = refl
  on_wake-world (some terminate) b = refl

  -- The part of `main` behind the listener. The state and the router are made here, since they depend
  -- on nothing that happens in between.
  unfoldable pub serve_on :
      Config → H.PrometheusHandle → Map User → RateLimiter P.governor → H.TcpListener → Main Unit
  serve_on config metrics_handle users rate_limiter listener b =
      let (state, server) = new_state config users rate_limiter b.world in
      on_exit b (H.serve listener (build_router state metrics_handle) server)

  -- The part behind the pool and the schema.
  unfoldable pub start_server : Config → H.PrometheusHandle → Main Unit
  start_server config metrics_handle = do
    users ← expect (seed_users P)
    let rate_limiter = RateLimit.new P.governor config.rate_limit_per_min
    listener ←
        exit_unless "failed to bind" (("addr", config.bind_addr) ∷ []) (λ e. e)
          (H.bind config.bind_addr)
    info "listening" (("addr", config.bind_addr) ∷ [])
    serve_on config metrics_handle users rate_limiter listener

  -- The part behind the first lines of the log.
  unfoldable pub start : Config → Main Unit
  start config = do
    ensure_db_dir config.db_path
    metrics_handle ← install_metrics
    exit_unless "failed to build database pool" [] fmt (build_pool config.db_path)
    exit_unless "failed to initialize schema" [] fmt (init_schema P)
    start_server config metrics_handle

  -- `main`
  unfoldable pub main : Main Unit
  main b =
      let config = from_env (H.var b.world) in
      (do
        init_tracing
        info "starting SecureLedger" (("bind", config.bind_addr) ∷ ("db", config.db_path) ∷ [])
        start config)
        b

  -- `build_metrics_handle`
  unfoldable pub build_metrics_handle : H.PrometheusHandle
  build_metrics_handle = H.recorder_handle

  -- `build_test_app`, with what its middlewares start with.
  unfoldable pub build_test_app : Main (Router P × AppState × Server P)
  unfolding new_state build_metrics_handle
  build_test_app = do
    let config : Config = record {
      jwt_secret = "test-secret";
      db_path = ":memory:";
      bind_addr = "127.0.0.1:0";
      rate_limit_per_min = 100000;
    }
    expect (build_pool ":memory:")
    expect (init_schema P)
    users ← expect (seed_users P)
    let rate_limiter = RateLimit.new P.governor config.rate_limit_per_min
    λ b.
        let (state, server) = new_state config users rate_limiter b.world in
        (ok (build_router state build_metrics_handle, state, server), b)
