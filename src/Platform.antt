-- ===== src/Platform.antt =====
-- The code that the program calls and does not contain: the crates chrono, uuid, r2d2, rusqlite,
-- argon2, jsonwebtoken and governor, and the clock of std, over an outside world of an unknown type. Only names and
-- types stand here; what the proofs rely on is stated where it is used, as named hypotheses.
use rhel9_app_micro.Prelude.{ℕ, String, Bool, Option, List}
use rhel9_app_micro.Prelude.Int.{ℤ}
use rhel9_app_micro.Outcome.{Except}
use rhel9_app_micro.RateLimit.{Governor}

-- `Claims` of src/auth.rs, which the crate jsonwebtoken serialises.
pub record Claims : Type 0 where
  pub sub : String
  pub role : String
  pub exp : ℤ
  pub iat : ℤ

-- `Validation` of jsonwebtoken, as far as the program sets it.
pub record Validation : Type 0 where
  pub validate_exp : Bool

-- A parameter of a SQL statement (`rusqlite::ToSql`).
pub data Value : Type 0 where
  text : String → Value
  integer : ℤ → Value

-- `row.get(name)` on a row of text columns.
abbrev pub Row : Type 0
Row = String → Except String String

pub record Platform : Type 1 where
  -- The database file, its pool, the clocks, the random source.
  pub World : Type 0
  -- chrono: `DateTime<Utc>`, `Utc::now`, `+ Duration::seconds`, `timestamp`, `to_rfc3339`, and
  -- `parse_from_rfc3339` followed by `with_timezone(&Utc)`.
  pub DateTime : Type 0
  pub utc_now : World → DateTime × World
  pub add_seconds : DateTime → ℤ → DateTime
  pub timestamp : DateTime → ℤ
  pub to_rfc3339 : DateTime → String
  pub parse_from_rfc3339 : String → Option DateTime
  -- uuid: `Uuid::new_v4().to_string()`.
  pub new_v4 : World → String × World
  -- r2d2: `pool.get()`; an error is given by its text.
  pub pool_get : World → Except String Unit × World
  -- rusqlite: `execute`, `execute_batch`, and `prepare` with `query_map`, whose rows may each fail
  -- to be read.
  pub execute : String → List Value → World → Except String ℕ × World
  pub execute_batch : String → World → Except String Unit × World
  pub query : String → List Value → World → Except String (List (Except String Row)) × World
  -- argon2: `SaltString::generate`, `hash_password`, `PasswordHash::new`, `verify_password`.
  pub generate_salt : World → String × World
  pub argon2_hash : String → String → Except String String
  pub PasswordHash : Type 0
  pub parse_hash : String → Option PasswordHash
  pub argon2_verify : String → PasswordHash → Bool
  -- jsonwebtoken: `Validation::default`, `encode` with the default header, `decode`, which reads
  -- the clock.
  pub default_validation : Validation
  pub jwt_encode : Claims → String → Except String String
  pub jwt_decode : String → String → Validation → World → Except String Claims × World
  -- governor, and the readings of its clock.
  pub governor : Governor
  pub instant_now : World → governor.Instant × World
  -- std: `Instant::now`, and `elapsed` of such an instant, which reads the clock again, followed by
  -- `as_secs_f64`.
  pub Monotonic : Type 0
  pub Seconds : Type 0
  pub monotonic_now : World → Monotonic × World
  pub elapsed : Monotonic → World → Seconds × World
