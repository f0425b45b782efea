-- ===== src/Config.antt =====
-- src/config.rs: the configuration read from environment variables.
pub mod Number
pub mod Bounds
use rhel9_app_micro.Prelude.{ℕ, String, Option, none, some, unwrap_or}
use rhel9_app_micro.Config.Number.{parse_u32}

pub record Config : Type 0 where
  pub jwt_secret : String
  pub db_path : String
  pub bind_addr : String
  pub rate_limit_per_min : ℕ

-- Rust's `Option::and_then`.
abbrev pub and_then : {A B : Type 0} → Option A → (A → Option B) → Option B
and_then none f = none
and_then (some a) f = f a

-- `Config::from_env`, over `env::var` with its error forgotten.
unfoldable pub from_env : (String → Option String) → Config
from_env var =
    let jwt_secret = unwrap_or (var "JWT_SECRET") "dev-insecure-change-me-secret-key" in
    let db_path = unwrap_or (var "DB_PATH") "/app/data/secureledger.db" in
    let bind_addr = unwrap_or (var "BIND_ADDR") "0.0.0.0:8080" in
    let rate_limit_per_min = unwrap_or (and_then (var "RATE_LIMIT_PER_MIN") parse_u32) 100 in
    record {
      jwt_secret = jwt_secret;
      db_path = db_path;
      bind_addr = bind_addr;
      rate_limit_per_min = rate_limit_per_min;
    }
