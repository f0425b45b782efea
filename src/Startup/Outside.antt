-- ===== src/Startup/Outside.antt =====
-- What src/main.rs calls, and the data that it hands over.
use rhel9_app_micro.Prelude.{ℕ, String, Bool, Option, List}
use rhel9_app_micro.Outcome.{Except}
use rhel9_app_micro.Process.{Process}
use rhel9_app_micro.Errors.{AppError}
use rhel9_app_micro.Platform.{Platform}
use rhel9_app_micro.Observe.{Server}
use rhel9_app_micro.Api.{Request, Reply}

-- `SqliteConnectionManager`
pub data Manager : Type 0 where
  memory : Manager
  file : String → Manager

-- An event of the log: its message and its fields.
pub record Event : Type 0 where
  pub is_error : Bool
  pub message : String
  pub fields : List (String × String)

-- Which of its two signals `shutdown_signal` saw first.
pub data Wake : Type 0 where
  ctrl_c terminate : Wake

-- A request as the server runs it.
abbrev pub Router : Platform → Type 0
Router P = Request → Process AppError (Server P) (Reply P.DateTime)

-- What src/main.rs calls: std, r2d2, tokio, axum, and the crates for logs and metrics. An error is
-- given by its text.
pub record Host (P : Platform) : Type 1 where
  -- `std::env::var`, its error forgotten.
  pub var : P.World → String → Option String
  -- `EnvFilter::try_from_default_env().ok()` and `EnvFilter::new`.
  pub Filter : Type 0
  pub try_from_default_env : P.World → Option Filter
  pub filter_new : String → Filter
  -- `Path::new(p).parent()` and `std::fs::create_dir_all`.
  pub parent : String → Option String
  pub create_dir_all : String → P.World → Except String Unit × P.World
  -- `PrometheusBuilder::new().install_recorder()`
  pub PrometheusHandle : Type 0
  pub install_recorder : P.World → Except String PrometheusHandle × P.World
  -- `PrometheusBuilder::new().build_recorder().handle()`
  pub recorder_handle : PrometheusHandle
  -- `Pool::builder().max_size(n).build(manager)`; the pool is of the world.
  pub build : Manager → ℕ → P.World → Except String Unit × P.World
  -- `TcpListener::bind`
  pub TcpListener : Type 0
  pub bind : String → P.World → Except String TcpListener × P.World
  -- `axum::serve(listener, app).with_graceful_shutdown(signal).await`, with the signal that ended
  -- it, if one did, as `tokio::select!` reports it.
  pub serve : TcpListener → Router P → Server P → Except String Unit × Option Wake × Server P
