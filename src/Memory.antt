-- ===== src/Memory.antt =====
-- A platform that keeps the tables in memory: it shows that what the proofs assume of SQLite and
-- of the crates can hold together, and runs the program in tests.
pub mod Sorting
pub mod Lawful
mod Witnesses
mod Sessions
mod Progress
mod Interleavings
mod Starts
mod Documented
mod Bursts
mod Audits
mod Ledgers
mod Scenarios
use rhel9_app_micro.Prelude.{
  ℕ, zero, suc, ◌+◌, ◌-◌, String, ◌<>◌, Bool, true, false, Option, none, some, List, [], ◌∷◌, ◌++◌,
  map, take, drop, str_eq, ◌==◌, ◌&&◌, ◌||◌, if◌then◌else◌,
}
use rhel9_app_micro.Prelude.Int.{ℤ, pos, negsuc, pos_part, ltb_ℤ}
use rhel9_app_micro.Outcome.{Except, ok, err}
use rhel9_app_micro.Text.Decimal.{show}
use rhel9_app_micro.Text.Digits.{digits_value}
use rhel9_app_micro.Config.Number.{parse_u32}
use rhel9_app_micro.RateLimit.Tests.{bucket}
use rhel9_app_micro.Platform.{Platform, Claims, Validation, Row, Value, text, integer}
use rhel9_app_micro.Db.Lawful.Statements.{
  ping_statement, list_tasks_statement, get_task_statement, insert_task_statement,
  update_task_statement, delete_task_statement, insert_audit_statement,
}
use rhel9_app_micro.Db.Lawful.{found_rows}
use rhel9_app_micro.Db.Lawful.Rows.{
  TaskRow, AuditRow, task_columns, audit_columns, matching, audit_select, find_task, find_audit,
  patch_where, remove_where,
}
use rhel9_app_micro.Memory.Sorting.{sort}

pub record Disk : Type 0 where
  pub tasks : List TaskRow
  pub audits : List AuditRow
  -- Seconds, and the count of ids drawn.
  pub clock : ℕ
  pub ids : ℕ
  -- For each connection to come, whether it fails.
  pub outages : List Bool

abbrev pub written : Disk → List TaskRow → Except String ℕ × Disk
written d rows = (ok 1, record d { tasks = rows })

abbrev pub insert_row : TaskRow → Disk → Option TaskRow → Except String ℕ × Disk
insert_row r d none = written d (d.tasks ++ r ∷ [])
insert_row r d (some old) = (err "UNIQUE constraint failed: task.id", d)

abbrev pub insert_values : List Value → Disk → Except String ℕ × Disk
insert_values (text a ∷ text b ∷ text c ∷ text e ∷ text f ∷ text g ∷ text h ∷ []) d =
    let r : TaskRow = record {
      id = a;
      title = b;
      description = c;
      status = e;
      owner = f;
      created_at = g;
      updated_at = h;
    } in
    insert_row r d (find_task a d.tasks)
insert_values _ d = (err "Wrong number of parameters", d)

abbrev pub update_values : List Value → Disk → Except String ℕ × Disk
update_values (text a ∷ text b ∷ text c ∷ text e ∷ text id ∷ []) d =
    written d
      (patch_where id (record { title = a; description = b; status = c; updated_at = e }) d.tasks)
update_values _ d = (err "Wrong number of parameters", d)

abbrev pub delete_values : List Value → Disk → Except String ℕ × Disk
delete_values (text id ∷ []) d = written d (remove_where id d.tasks)
delete_values _ d = (err "Wrong number of parameters", d)

-- `id TEXT PRIMARY KEY`.
abbrev pub insert_event : AuditRow → Disk → Option AuditRow → Except String ℕ × Disk
insert_event r d none = (ok 1, record d { audits = d.audits ++ r ∷ [] })
insert_event r d (some old) = (err "UNIQUE constraint failed: audit_event.id", d)

abbrev pub audit_insert_values : List Value → Disk → Except String ℕ × Disk
audit_insert_values (text a ∷ text b ∷ text c ∷ text e ∷ text f ∷ text g ∷ text h ∷ []) d =
    let r : AuditRow = record {
      id = a;
      actor = b;
      action = c;
      entity_type = e;
      entity_id = f;
      timestamp = g;
      detail = h;
    } in
    insert_event r d (find_audit a d.audits)
audit_insert_values _ d = (err "Wrong number of parameters", d)

abbrev pub mem_execute : String → List Value → Disk → Except String ℕ × Disk
mem_execute statement values d =
    if str_eq statement insert_task_statement
    then insert_values values d
    else if str_eq statement update_task_statement
    then update_values values d
    else if str_eq statement delete_task_statement
    then delete_values values d
    else if str_eq statement insert_audit_statement
    then audit_insert_values values d
    else (err "no such statement", d)

abbrev pub rows_of : {R : Type 0} → (R → Row) → List R → List (Except String Row)
rows_of columns [] = []
rows_of columns (x ∷ xs) = ok (columns x) ∷ rows_of columns xs

abbrev pub found : Option TaskRow → List (Except String Row)
found none = []
found (some r) = ok (task_columns r) ∷ []

abbrev pub select_one : List Value → Disk → List (Except String Row)
select_one (text id ∷ []) d = found (find_task id d.tasks)
select_one _ d = []

abbrev pub select_page : List Value → Disk → List (Except String Row)
select_page (integer (pos limit) ∷ integer (pos offset) ∷ []) d =
    rows_of task_columns (take limit (drop offset (sort (λ (r : TaskRow). r.created_at) d.tasks)))
select_page _ d = []

-- The statement of `list_audit` for these filters; the limit is among its values only.
abbrev audit_sql : Option String → Option String → String
audit_sql actor action = (audit_select actor action "").0

abbrev select_events : Option String → Option String → String → Disk → List (Except String Row)
select_events actor action limit d = rows_of audit_columns (
    take (digits_value 0 limit)
      (sort (λ (e : AuditRow). e.timestamp) (matching actor action d.audits)))

unfoldable pub select_audit : String → List Value → Disk → List (Except String Row)
select_audit statement (text limit ∷ []) d = select_events none none limit d
select_audit statement (text a ∷ text limit ∷ []) d =
    if str_eq statement (audit_sql (some "") none)
    then select_events (some a) none limit d
    else select_events none (some a) limit d
select_audit statement (text a ∷ text b ∷ text limit ∷ []) d =
    select_events (some a) (some b) limit d
select_audit statement _ d = []

unfoldable pub is_audit_query : String → Bool
is_audit_query statement =
    str_eq statement (audit_sql none none)
    || str_eq statement (audit_sql (some "") none)
    || str_eq statement (audit_sql none (some ""))
    || str_eq statement (audit_sql (some "") (some ""))

abbrev pub mem_query : String → List Value → Disk → Except String (List (Except String Row)) × Disk
mem_query statement values d =
    if str_eq statement get_task_statement
    then (ok (select_one values d), d)
    else if str_eq statement list_tasks_statement
    then (ok (select_page values d), d)
    else if is_audit_query statement
    then (ok (select_audit statement values d), d)
    else if str_eq statement ping_statement
    then (ok (ok (λ name. err "Invalid column name") ∷ []), d)
    else (err "no such statement", d)

abbrev pub connect : List Bool → Disk → Except String Unit × Disk
connect [] d = (ok tt, d)
connect (true ∷ rest) d = (err "timed out waiting for connection", record d { outages = rest })
connect (false ∷ rest) d = (ok tt, record d { outages = rest })

abbrev pub mem_pool_get : Disk → Except String Unit × Disk
mem_pool_get d = connect d.outages d

abbrev pub user_claims : Claims
user_claims = record { sub = "user"; role = "user"; exp = pos 3600; iat = pos 0 }

abbrev pub is_number : ℤ → ℕ → Bool
is_number (pos n) m = n == m
is_number (negsuc n) m = false

abbrev pub is_user_claims : Claims → Bool
is_user_claims c =
    str_eq c.sub "user" && str_eq c.role "user" && is_number c.exp 3600 && is_number c.iat 0

-- A toy signature, with two tokens: the encoder knows the claims of one user at the time 0.
abbrev pub mem_encode : Claims → String → Except String String
mem_encode c secret = if is_user_claims c then ok "Uuser" else err "InvalidAlgorithm"

abbrev pub mem_claims : String → Except String Claims
mem_claims token =
    if str_eq token "Uuser"
    then ok user_claims
    else if str_eq token "Aadmin"
    then ok (record { sub = "admin"; role = "admin"; exp = pos 3600; iat = pos 0 })
    else err "InvalidToken"

abbrev pub mem_decode : String → String → Validation → Disk → Except String Claims × Disk
mem_decode token secret v d = (mem_claims token, d)

abbrev pub memory : Platform
memory = record {
  World = Disk;
  DateTime = ℕ;
  utc_now = λ d. (d.clock, record d { clock = d.clock + 1 });
  add_seconds = λ n z. n + pos_part z;
  timestamp = pos;
  to_rfc3339 = show;
  parse_from_rfc3339 = parse_u32;
  new_v4 = λ d. ("id-" <> show d.ids, record d { ids = d.ids + 1 });
  pool_get = λ d. (ok tt, d);
  execute = mem_execute;
  execute_batch = λ s d. (ok tt, d);
  query = mem_query;
  generate_salt = λ d. ("salt", d);
  argon2_hash = λ plain salt. ok ("salt" <> plain);
  PasswordHash = String;
  parse_hash = some;
  argon2_verify = λ plain hash. str_eq hash ("salt" <> plain);
  default_validation = record { validate_exp = true };
  jwt_encode = mem_encode;
  jwt_decode = mem_decode;
  governor = bucket;
  instant_now = λ d. (tt, d);
  Monotonic = ℕ;
  Seconds = ℕ;
  monotonic_now = λ d. (d.clock, d);
  elapsed = λ start d. (d.clock - start, d);
}

-- The same, with a pool that fails as the disk says.
abbrev pub unreliable : Platform
unreliable = record memory { pool_get = mem_pool_get }
