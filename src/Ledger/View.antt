-- ===== src/Ledger/View.antt =====
-- The ledger that the two tables of src/db.rs stand for.
use mathlib.Core.Path.{fun_ext}
use rhel9_app_micro.Prelude.{
  String, ◌≡◌, refl, Option, none, some, unwrap_or, map_option, List, [], ◌∷◌, ◌++◌, map, str_eq,
  eq_iff, Bool-cases, inl, inr, Bool, true, false,
}
use rhel9_app_micro.Models.{Task, todo, status_from_str}
use rhel9_app_micro.Models.Names.{status_from_str-status_as_str}
use rhel9_app_micro.Platform.{Platform}
use rhel9_app_micro.Db.Lawful.{Tables, Same}
use rhel9_app_micro.Db.Lawful.Rows.{
  TaskRow, AuditRow, Patch, patch_row, find_task, find_audit, patch_where, remove_where,
}
use rhel9_app_micro.Db.Outcomes.{task_row, IsEvent}
use rhel9_app_micro.Db.Reads.{Decodes}
use rhel9_app_micro.Extract.{or_else}
use rhel9_app_micro.Api.Rows.{find_task-append, find_task-patch_where, find_task-remove_where}
use rhel9_app_micro.Extract.{AuthUser}
use mathlib.Core.List.{map-append}
use rhel9_app_micro.Ledger.{Entry, LedgerEvent, Ledger, put, change, has_event}

abbrev pub entry : TaskRow → Entry
entry r = record {
  title = r.title;
  description = r.description;
  status = unwrap_or (status_from_str r.status) todo;
  owner = r.owner;
}

abbrev pub event : AuditRow → LedgerEvent
event e = record {
  id = e.id;
  actor = e.actor;
  action = e.action;
  task = e.entity_id;
  detail = e.detail;
}

abbrev pub task_entry : {D : Type 0} → Task D → Entry
task_entry t = record {
  title = t.title;
  description = t.description;
  status = t.status;
  owner = t.owner;
}

abbrev pub is_some : {A : Type 0} → Option A → Bool
is_some none = false
is_some (some a) = true

abbrev pub seen : List TaskRow → String → Option Entry
seen rows id = map_option entry (find_task id rows)

module _ (P : Platform) (T : Tables P) where
  abbrev pub ledger : P.World → Ledger
  ledger w = record { tasks = seen (T.tasks w); log = map event (T.audits w) }

  pub ledger-Same : {w w' : P.World} → Same P T w w' → ledger w' ≡ ledger w
  ledger-Same s = rw (s.tasks, s.audits) refl

pub Decodes-entry :
    (P : Platform) (r : TaskRow) (t : Task P.DateTime) → Decodes P r t → task_entry t ≡ entry r
Decodes-entry P r t d = rw (d.title, d.description, d.status, d.owner) refl

pub entry-task_row : (P : Platform) (t : Task P.DateTime) → entry (task_row P t) ≡ task_entry t
entry-task_row P t = rw (status_from_str-status_as_str t.status) refl

-- The three changes of the table, as changes of the map.
pub seen-append :
    (r : TaskRow) (rows : List TaskRow)
    → find_task r.id rows ≡ none
    → seen (rows ++ r ∷ []) ≡ put r.id (some (entry r)) (seen rows)
seen-append r rows fresh = fun_ext λ id. elim (Bool-cases (str_eq r.id id)) [
  | inl same ↦
      let e : r.id ≡ id = (eq_iff r.id id).0 same in
      let none_yet : find_task id rows ≡ none = rw (← e) fresh in
      rw (find_task-append id r rows, none_yet, same) refl
  | inr other ↦ rw (find_task-append id r rows, other) (or_else_none (find_task id rows))
]
  where
    or_else_none : (o : Option TaskRow) → map_option entry (or_else o none) ≡ map_option entry o
    or_else_none none = refl
    or_else_none (some x) = refl

pub seen-patch_where :
    (id : String) (p : Patch) (r : TaskRow) (rows : List TaskRow)
    → find_task id rows ≡ some r
    → seen (patch_where id p rows) ≡ put id (some (entry (patch_row p r))) (seen rows)
seen-patch_where id p r rows f = fun_ext λ j. elim (Bool-cases (str_eq id j)) [
  | inl same ↦
      let e : id ≡ j = (eq_iff id j).0 same in
      let found : find_task j rows ≡ some r = rw (← e) f in
      rw (find_task-patch_where j id p rows, same, found) refl
  | inr other ↦ rw (find_task-patch_where j id p rows, other) refl
]

pub seen-remove_where :
    (id : String) (rows : List TaskRow) → seen (remove_where id rows) ≡ put id none (seen rows)
seen-remove_where id rows = fun_ext λ j. elim (Bool-cases (str_eq id j)) [
  | inl same ↦ rw (find_task-remove_where j id rows, same) refl
  | inr other ↦ rw (find_task-remove_where j id rows, other) refl
]

pub event-IsEvent :
    (P : Platform) (actor action id detail : String) (e : AuditRow)
    → IsEvent P actor action "task" id detail e
    → event e ≡ record { id = e.id; actor = actor; action = action; task = id; detail = detail }
event-IsEvent P actor action id detail e is = rw (is.by, is.did, is.on_id, is.with_detail) refl

-- The ids of the log are those of the table.
pub has_event-view :
    (id : String) (rows : List AuditRow)
    → has_event id (map event rows) ≡ is_some (find_audit id rows)
unfolding has_event find_audit
has_event-view id [] = refl
has_event-view id (e ∷ es) = elim (Bool-cases (str_eq e.id id)) [
  | inl same ↦ rw same refl
  | inr other ↦ rw other (has_event-view id es)
]

module _ (P : Platform) (T : Tables P) where
  -- One task changed and one event logged, in the tables and in the ledger.
  pub ledger-change :
      (user : AuthUser) (action id detail : String) (o : Option Entry) (e : AuditRow)
      (w w' : P.World)
      → seen (T.tasks w') ≡ put id o (seen (T.tasks w))
      → IsEvent P user.username action "task" id detail e
      → T.audits w' ≡ T.audits w ++ e ∷ []
      → ledger P T w' ≡ change user action id detail e.id o (ledger P T w)
  ledger-change user action id detail o e w w' s is grown =
      rw
        (
          s,
          grown,
          map-append event (T.audits w) (e ∷ []),
          event-IsEvent P user.username action id detail e is,
        )
        refl
