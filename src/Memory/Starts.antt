-- ===== src/Memory/Starts.antt =====
-- The process over the in-memory platform, on a host with a read-only file system.
use rhel9_app_micro.Prelude.{
  ℕ, String, ◌≡◌, refl, none, some, List, [], ◌∷◌, map, str_eq, if◌then◌else◌,
}
use rhel9_app_micro.Outcome.{Except, ok, err}
use rhel9_app_micro.Process.{interleave}
use rhel9_app_micro.Config.{from_env}
use rhel9_app_micro.Text.{is_empty}
use rhel9_app_micro.Auth.{seed_users, hash_password}
use rhel9_app_micro.Db.{init_schema, get_conn}
use rhel9_app_micro.Api.{Request}
use rhel9_app_micro.Startup.{
  Event, Host, Boot, main, init_tracing, start, ensure_db_dir, install_metrics, build_pool,
  start_server, serve_on, new_state,
}
use rhel9_app_micro.Memory.{Disk, memory}
use rhel9_app_micro.Memory.Interleavings.{disk, rename, set_done, both_read_first}
use rhel9_app_micro.Process.{advance, ◌>>=◌}
use rhel9_app_micro.Errors.{error_response, parts}
use rhel9_app_micro.HashMap.{lookup, insert}
use rhel9_app_micro.RateLimit
use rhel9_app_micro.Extract.{auth_user, bearer_token}
use rhel9_app_micro.Observe.{Server, client_key, anonymous_key}
use rhel9_app_micro.Handlers.{AppState, Pagination}
use rhel9_app_micro.Api.{Endpoint, healthz, list_tasks, template}
use rhel9_app_micro.Api.Steps.{
  handle_steps, answer_steps, respond, on_world, admit, timed, count, observe,
}
use rhel9_app_micro.Startup.{
  Router, terminate, shutdown_signal, build_test_app, build_metrics_handle, build_router,
}

-- Two clients send an update each, and then the process is told to stop.
abbrev requests : List Request
requests = rename ∷ set_done ∷ []

abbrev host : Host memory
host = record {
  var = λ d name. if str_eq name "JWT_SECRET" then some "s" else none;
  Filter = String;
  try_from_default_env = λ d. none;
  filter_new = λ s. s;
  parent = λ p. some "/app/data";
  create_dir_all = λ dir d. (err "Read-only file system", d);
  PrometheusHandle = Unit {0};
  install_recorder = λ d. (ok tt, d);
  recorder_handle = tt;
  build = λ m n d. (ok tt, d);
  TcpListener = String;
  bind = λ addr d. (ok addr, d);
  serve = λ l app s. (ok tt, some terminate, (interleave both_read_first (map app requests) s).1);
}

-- The same host, with the address in use.
abbrev busy : Host memory
busy = record host { bind = λ addr d. (err "Address already in use", d) }

abbrev anonymous : Endpoint → Request
anonymous endpoint = record { headers = λ name. none; endpoint = endpoint }

abbrev first_page : Pagination
first_page = record { limit = none; offset = none }

abbrev boot : Boot memory host
boot = record { world = disk; filter = none; log = [] }

abbrev messages : List Event → List String
messages events = map (λ (e : Event). e.message) events

-- A directory that cannot be made is logged, and the server runs.
runs :
    ((main memory host boot).0 ≡ ok tt)
    × (messages (main memory host boot).1.log
        ≡ "starting SecureLedger" ∷ "could not create DB directory (read-only rootfs?); continuing"
          ∷ "listening" ∷ "received SIGTERM" ∷ "shutdown complete" ∷ [])
unfolding main init_tracing start ensure_db_dir install_metrics build_pool init_schema get_conn
    start_server serve_on shutdown_signal new_state from_env is_empty seed_users hash_password
runs = (refl, refl)

-- An address in use ends the process with 1.
busy_address :
    ((main memory busy (record { world = disk; filter = none; log = [] })).0 ≡ err 1)
    × (messages (main memory busy (record { world = disk; filter = none; log = [] })).1.log
        ≡ "starting SecureLedger" ∷ "could not create DB directory (read-only rootfs?); continuing"
          ∷ "failed to bind" ∷ [])
unfolding main init_tracing start ensure_db_dir install_metrics build_pool init_schema get_conn
    start_server serve_on shutdown_signal new_state from_env is_empty seed_users hash_password
busy_address = (refl, refl)

abbrev test_disk : Disk
test_disk = record { tasks = []; audits = []; clock = 0; ids = 0; outages = [] }

-- What the test application answers to a probe and to an anonymous listing.
abbrev probe : Except ℕ (Router memory × AppState × Server memory) → List ℕ
probe (ok (app, state, server)) =
    let (ps, s) =
      interleave (0 ∷ 0 ∷ 0 ∷ 0 ∷ 0 ∷ 1 ∷ 1 ∷ 1 ∷ 1 ∷ 1 ∷ 1 ∷ [])
        (map app (anonymous healthz ∷ anonymous (list_tasks (ok first_page)) ∷ [])) server in
    map (λ (e : String × String × ℕ). e.2) s.counted
probe (err code) = []

test_app_answers :
    probe (build_test_app memory host (record { world = test_disk; filter = none; log = [] })).0
    ≡ 200 ∷ 401 ∷ []
unfolding build_test_app build_metrics_handle build_pool init_schema get_conn new_state build_router
    seed_users hash_password interleave advance ◌>>=◌ handle_steps answer_steps respond on_world
    admit timed count observe client_key anonymous_key RateLimit.check RateLimit.new lookup insert
    auth_user bearer_token template error_response parts
test_app_answers = refl
