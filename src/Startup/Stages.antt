-- ===== src/Startup/Stages.antt =====
-- The stages of the start, as a relation, and the ways in which the process ends (src/main.rs).
use rhel9_app_micro.Prelude.{
  ℕ, String, ◌≡◌, ◌≢◌, ◌⊎◌, Bool, true, false, Option, List, [], ◌∷◌, ◌++◌,
}
use rhel9_app_micro.Outcome.{Except, ok, err}
use rhel9_app_micro.HashMap.{Map}
use rhel9_app_micro.Models.{User}
use rhel9_app_micro.Errors.{AppError}
use rhel9_app_micro.Config.{Config}
use rhel9_app_micro.RateLimit
use rhel9_app_micro.RateLimit.{RateLimiter}
use rhel9_app_micro.Platform.{Platform}
use rhel9_app_micro.Auth.{seed_users}
use rhel9_app_micro.Observe.{Server}
use rhel9_app_micro.Db.{init_schema}
use rhel9_app_micro.Startup.{Event, Host, Boot, ensure_db_dir, memory, file, build_router, Wake}

-- How far the start has come, with what it has by then.
pub data Stage (P : Platform) (H : Host P) : Type 0 where
  begun prepared : Stage P H
  recorded pooled ready : H.PrometheusHandle → Stage P H
  seeded : H.PrometheusHandle → Map User → Stage P H
  listening : H.PrometheusHandle → Map User → H.TcpListener → Stage P H

module _ (P : Platform) (H : Host P) where
  -- The pool of a path: one connection to a database in memory, or up to 8 to the file.
  abbrev pub Opens : String → P.World → Except String Unit × P.World → Type 0
  Opens path w r =
      ((path ≡ ":memory:") × (H.build memory 1 w ≡ r))
      ⊎ ((path ≢ ":memory:") × (H.build (file path) 8 w ≡ r))

  -- The stages in their order, each with the call that succeeded and the world that it left.
  pub data Reached (config : Config) (start : P.World) : Stage P H → P.World → Type 0 where
    begin : Reached config start begun start
    prepare :
        (b b' : Boot P H)
        → Reached config start begun b.world
        → ensure_db_dir P H config.db_path b ≡ (ok tt, b')
        → Reached config start prepared b'.world
    record_metrics :
        {handle : H.PrometheusHandle} (w : P.World) {w' : P.World}
        → Reached config start prepared w
        → H.install_recorder w ≡ (ok handle, w')
        → Reached config start (recorded handle) w'
    open_pool :
        {handle : H.PrometheusHandle} (w : P.World) {w' : P.World}
        → Reached config start (recorded handle) w
        → Opens config.db_path w (ok tt, w')
        → Reached config start (pooled handle) w'
    create_schema :
        {handle : H.PrometheusHandle} (w : P.World) {w' : P.World}
        → Reached config start (pooled handle) w
        → init_schema P w ≡ (ok tt, w')
        → Reached config start (ready handle) w'
    seed :
        {handle : H.PrometheusHandle} {users : Map User} (w : P.World) {w' : P.World}
        → Reached config start (ready handle) w
        → seed_users P w ≡ (ok users, w')
        → Reached config start (seeded handle users) w'
    listen :
        {handle : H.PrometheusHandle} {users : Map User} {l : H.TcpListener} (w : P.World)
        {w' : P.World}
        → Reached config start (seeded handle users) w
        → H.bind config.bind_addr w ≡ (ok l, w')
        → Reached config start (listening handle users l) w'

  -- What the server is run with: the routes for the configuration and the users, a limiter of the
  -- configured allowance that knows no client yet, and no request counted or timed.
  abbrev pub run_server :
      Config
      → H.PrometheusHandle
      → Map User
      → H.TcpListener
      → P.World
      → Except String Unit × Option Wake × Server P
  run_server config handle users l w =
      H.serve l (build_router P H (record { config = config; users = users }) handle) (record {
        limiter = RateLimit.new P.governor config.rate_limit_per_min;
        counted = [];
        latencies = [];
        world = w;
      })

  -- The step that ended the process with an error that is logged, under the message.
  pub data Failed (config : Config) (start : P.World) : String → Type 0 where
    no_pool :
        (handle : H.PrometheusHandle) (w : P.World) (e : String) {w' : P.World}
        → Reached config start (recorded handle) w
        → Opens config.db_path w (err e, w')
        → Failed config start "failed to build database pool"
    no_schema :
        (handle : H.PrometheusHandle) (w : P.World) {e : AppError} {w' : P.World}
        → Reached config start (pooled handle) w
        → init_schema P w ≡ (err e, w')
        → Failed config start "failed to initialize schema"
    no_listener :
        (handle : H.PrometheusHandle) (users : Map User) (w : P.World) {e : String} {w' : P.World}
        → Reached config start (seeded handle users) w
        → H.bind config.bind_addr w ≡ (err e, w')
        → Failed config start "failed to bind"
    broken :
        (handle : H.PrometheusHandle) (users : Map User) (l : H.TcpListener) (w : P.World)
        {e : String} {wake : Option Wake} {s : Server P}
        → Reached config start (listening handle users l) w
        → run_server config handle users l w ≡ (err e, wake, s)
        → Failed config start "server error"

  -- The step that panicked.
  pub data Panicked (config : Config) (start : P.World) : Type 0 where
    no_recorder :
        (w : P.World) {e : String} {w' : P.World}
        → Reached config start prepared w
        → H.install_recorder w ≡ (err e, w')
        → Panicked config start
    no_users :
        (handle : H.PrometheusHandle) (w : P.World) {e : AppError} {w' : P.World}
        → Reached config start (ready handle) w
        → seed_users P w ≡ (err e, w')
        → Panicked config start

  -- The server ran, came to its end, and left this world.
  pub data Served (config : Config) (start last : P.World) : Type 0 where
    ended :
        (handle : H.PrometheusHandle) (users : Map User) (l : H.TcpListener) (w : P.World)
        {wake : Option Wake} (s : Server P)
        → Reached config start (listening handle users l) w
        → run_server config handle users l w ≡ (ok tt, wake, s)
        → last ≡ s.world
        → Served config start last

  -- The log ends with an event of this level and message.
  abbrev pub LogEnds : Boot P H → Bool → String → Type 0
  LogEnds b is_error message =
      (log : List Event) × (fields : List (String × String)) × (b.log
        ≡ log ++ record { is_error = is_error; message = message; fields = fields } ∷ [])

  abbrev pub MainOutcome : Config → P.World → Except ℕ Unit × Boot P H → Type 0
  MainOutcome config start (ok t, b) =
      Served config start b.world × LogEnds b false "shutdown complete"
  MainOutcome config start (err code, b) =
      ((code ≡ 1) × (message : String) × Failed config start message × LogEnds b true message)
      ⊎ ((code ≡ 101) × Panicked config start)
