-- ===== src/Models.antt =====
-- src/models.rs: the entities, the request bodies, and their validation. A `DateTime<Utc>` is a
-- parameter `T`, chrono's type.
pub mod Names
pub mod Limits
use rhel9_app_micro.Prelude.{
  ℕ, String, len, Bool, true, false, Option, none, some, ℕ, ltb, str_eq, if◌then◌else◌,
}
use rhel9_app_micro.Prelude.Int.{ℤ}
use rhel9_app_micro.Outcome.{Except, ok, err}
use rhel9_app_micro.Text.{is_empty, trim}

pub data Role : Type 0 where
  admin user : Role

unfoldable pub role_as_str : Role → String
role_as_str admin = "admin"
role_as_str user = "user"

unfoldable pub role_from_str : String → Option Role
role_from_str s =
    if str_eq s "admin" then some admin else if str_eq s "user" then some user else none

-- The derived `PartialEq` of `Role`, at `Role::Admin`.
abbrev pub is_admin_role : Role → Bool
is_admin_role admin = true
is_admin_role user = false

pub record User : Type 0 where
  pub username : String
  pub password_hash : String
  pub role : Role

pub data TaskStatus : Type 0 where
  todo doing done : TaskStatus

unfoldable pub status_as_str : TaskStatus → String
status_as_str todo = "todo"
status_as_str doing = "doing"
status_as_str done = "done"

unfoldable pub status_from_str : String → Option TaskStatus
status_from_str s =
    if str_eq s "todo"
    then some todo
    else if str_eq s "doing"
    then some doing
    else if str_eq s "done"
    then some done
    else none

pub record Task (T : Type 0) : Type 0 where
  pub id : String
  pub title : String
  pub description : String
  pub status : TaskStatus
  pub owner : String
  pub created_at : T
  pub updated_at : T

pub record CreateTask : Type 0 where
  pub title : String
  pub description : String
  pub status : Option TaskStatus

pub record UpdateTask : Type 0 where
  pub title : Option String
  pub description : Option String
  pub status : Option TaskStatus

-- `CreateTask::validate`
unfoldable pub validate_create : CreateTask → Except String Unit
validate_create input =
    let title = trim input.title in
    if is_empty title
    then err "title must not be empty"
    else if ltb 200 (len title)
    then err "title must be at most 200 characters"
    else if ltb 2000 (len input.description)
    then err "description must be at most 2000 characters"
    else ok tt

-- The first `if let` of `UpdateTask::validate`, which returns early or falls through.
unfoldable pub validate_title : Option String → Except String Unit
validate_title none = ok tt
validate_title (some title) =
    let t = trim title in
    if is_empty t
    then err "title must not be empty"
    else if ltb 200 (len t)
    then err "title must be at most 200 characters"
    else ok tt

-- The second.
unfoldable pub validate_description : Option String → Except String Unit
validate_description none = ok tt
validate_description (some desc) =
    if ltb 2000 (len desc) then err "description must be at most 2000 characters" else ok tt

abbrev and_then : Except String Unit → Except String Unit → Except String Unit
and_then (ok _) next = next
and_then (err e) next = err e

-- `UpdateTask::validate`
unfoldable pub validate_update : UpdateTask → Except String Unit
unfolding validate_title validate_description
validate_update input =
    and_then (validate_title input.title) (validate_description input.description)

pub record AuditEvent (T : Type 0) : Type 0 where
  pub id : String
  pub actor : String
  pub action : String
  pub entity_type : String
  pub entity_id : String
  pub timestamp : T
  pub detail : String

pub record LoginRequest : Type 0 where
  pub username : String
  pub password : String

pub record LoginResponse : Type 0 where
  pub token : String
  pub token_type : String
  pub expires_in : ℤ
  pub role : String
