-- ===== src/Db/Lawful/Rows.antt =====
-- The rows of the two tables of src/db.rs, whose columns are all text, and what the SQL statements
-- do to them.
use Prim.Native.String.{compare}
use Prim.Native.Nat.{Ordering}
use rhel9_app_micro.Prelude.{
  String, ◌≡◌, ◌≢◌, Bool, true, ◌&&◌, Option, none, some, List, [], ◌∷◌, str_eq, if◌then◌else◌,
}
use rhel9_app_micro.Outcome.{ok, err}
use rhel9_app_micro.Platform.{Row, Value, text}

pub record TaskRow : Type 0 where
  pub id : String
  pub title : String
  pub description : String
  pub status : String
  pub owner : String
  pub created_at : String
  pub updated_at : String

pub record AuditRow : Type 0 where
  pub id : String
  pub actor : String
  pub action : String
  pub entity_type : String
  pub entity_id : String
  pub timestamp : String
  pub detail : String

-- `row.get(name)` on a row of the table.
unfoldable pub task_columns : TaskRow → Row
task_columns r name =
    if str_eq name "id"
    then ok r.id
    else if str_eq name "title"
    then ok r.title
    else if str_eq name "description"
    then ok r.description
    else if str_eq name "status"
    then ok r.status
    else if str_eq name "owner"
    then ok r.owner
    else if str_eq name "created_at"
    then ok r.created_at
    else if str_eq name "updated_at"
    then ok r.updated_at
    else err "Invalid column name"

unfoldable pub audit_columns : AuditRow → Row
audit_columns r name =
    if str_eq name "id"
    then ok r.id
    else if str_eq name "actor"
    then ok r.actor
    else if str_eq name "action"
    then ok r.action
    else if str_eq name "entity_type"
    then ok r.entity_type
    else if str_eq name "entity_id"
    then ok r.entity_id
    else if str_eq name "timestamp"
    then ok r.timestamp
    else if str_eq name "detail"
    then ok r.detail
    else err "Invalid column name"

-- The parameters `?1` to `?7` of the two INSERT statements.
abbrev pub task_values : TaskRow → List Value
task_values r =
    text r.id
    ∷ text r.title
    ∷ text r.description
    ∷ text r.status
    ∷ text r.owner
    ∷ text r.created_at
    ∷ text r.updated_at
    ∷ []

abbrev pub audit_values : AuditRow → List Value
audit_values e =
    text e.id
    ∷ text e.actor
    ∷ text e.action
    ∷ text e.entity_type
    ∷ text e.entity_id
    ∷ text e.timestamp
    ∷ text e.detail
    ∷ []

-- What `UPDATE task SET … WHERE id = ?5` sets.
pub record Patch : Type 0 where
  pub title : String
  pub description : String
  pub status : String
  pub updated_at : String

abbrev pub patch_values : String → Patch → List Value
patch_values id p =
    text p.title ∷ text p.description ∷ text p.status ∷ text p.updated_at ∷ text id ∷ []

abbrev pub patch_row : Patch → TaskRow → TaskRow
patch_row p r = record r {
  title = p.title;
  description = p.description;
  status = p.status;
  updated_at = p.updated_at;
}

unfoldable pub find_task : String → List TaskRow → Option TaskRow
find_task id [] = none
find_task id (r ∷ rs) = if str_eq r.id id then some r else find_task id rs

unfoldable pub find_audit : String → List AuditRow → Option AuditRow
find_audit id [] = none
find_audit id (e ∷ es) = if str_eq e.id id then some e else find_audit id es

unfoldable pub patch_where : String → Patch → List TaskRow → List TaskRow
patch_where id p [] = []
patch_where id p (r ∷ rs) = (if str_eq r.id id then patch_row p r else r) ∷ patch_where id p rs

unfoldable pub remove_where : String → List TaskRow → List TaskRow
remove_where id [] = []
remove_where id (r ∷ rs) =
    let rest = remove_where id rs in if str_eq r.id id then rest else r ∷ rest

-- No two rows have one id.
abbrev pub UniqueIds : List TaskRow → Type 0
UniqueIds [] = Unit
UniqueIds (r ∷ rs) = (find_task r.id rs ≡ none) × UniqueIds rs

-- `s` does not come before `t` in the order of texts.
abbrev NotBefore : String → String → Type 0
NotBefore s t = compare s t ≢ Ordering.lt

-- The rows stand by falling `created_at`: none comes before the one above it.
abbrev pub IsDescending : List TaskRow → Type 0
IsDescending [] = Unit
IsDescending (r ∷ []) = Unit
IsDescending (r ∷ s ∷ rs) = NotBefore r.created_at s.created_at × IsDescending (s ∷ rs)

abbrev pub IsDescendingAudit : List AuditRow → Type 0
IsDescendingAudit [] = Unit
IsDescendingAudit (r ∷ []) = Unit
IsDescendingAudit (r ∷ s ∷ rs) = NotBefore r.timestamp s.timestamp × IsDescendingAudit (s ∷ rs)

-- The SELECT of the audit log with the conditions that are given, the latest events first, and the
-- values of its parameters in their order.
abbrev pub audit_select : Option String → Option String → String → String × List String
audit_select none none limit = (
  "SELECT id, actor, action, entity_type, entity_id, timestamp, detail FROM audit_event WHERE 1=1 ORDER BY timestamp DESC LIMIT ?1",
  limit ∷ [],
)
audit_select (some actor) none limit = (
  "SELECT id, actor, action, entity_type, entity_id, timestamp, detail FROM audit_event WHERE 1=1 AND actor = ?1 ORDER BY timestamp DESC LIMIT ?2",
  actor ∷ limit ∷ [],
)
audit_select none (some action) limit = (
  "SELECT id, actor, action, entity_type, entity_id, timestamp, detail FROM audit_event WHERE 1=1 AND action = ?1 ORDER BY timestamp DESC LIMIT ?2",
  action ∷ limit ∷ [],
)
audit_select (some actor) (some action) limit = (
  "SELECT id, actor, action, entity_type, entity_id, timestamp, detail FROM audit_event WHERE 1=1 AND actor = ?1 AND action = ?2 ORDER BY timestamp DESC LIMIT ?3",
  actor ∷ action ∷ limit ∷ [],
)

abbrev equals : Option String → String → Bool
equals none s = true
equals (some t) s = str_eq s t

-- The events that `WHERE 1=1 AND actor = … AND action = …` keeps, each condition only if given.
unfoldable pub matching : Option String → Option String → List AuditRow → List AuditRow
matching actor action [] = []
matching actor action (e ∷ es) =
    let rest = matching actor action es in
    if equals actor e.actor && equals action e.action then e ∷ rest else rest
