-- ===== src/Memory/Audits.antt =====
-- The audit queries over the in-memory platform.
use rhel9_app_micro.Prelude.{ℕ, String, ◌≡◌, refl, none, some, List, [], ◌∷◌, map}
use rhel9_app_micro.Prelude.Int.{pos}
use rhel9_app_micro.Outcome.{Except, ok, err}
use rhel9_app_micro.Models.{AuditEvent}
use rhel9_app_micro.Errors.{AppError}
use rhel9_app_micro.Config.Number.{parse_u32, parse_digits}
use rhel9_app_micro.Db
use rhel9_app_micro.Db.{audit_query, collect, get_conn, row_to_event, parse_ts}
use rhel9_app_micro.Db.Lawful.Rows.{AuditRow, audit_columns, matching}
use rhel9_app_micro.Db.Lists.{ListsAudit, list_audit-ListsAudit}
use rhel9_app_micro.Memory.{Disk, memory, select_audit, is_audit_query}
use rhel9_app_micro.Memory.Lawful.{on_disk, memory-IsLawful}
use rhel9_app_micro.Memory.Sorting.{sort}
use rhel9_app_micro.Memory.Witnesses.{disk, plain_user}
use rhel9_app_micro.Handlers
use rhel9_app_micro.Handlers.{AuditQuery}
use rhel9_app_micro.Handlers.Pages.{AtMost, list_audit-AtMost}
use rhel9_app_micro.Process.{interleave}
use rhel9_app_micro.Api.Steps.{handle_steps}
use rhel9_app_micro.Api.Concurrent.Replies.{AllRecorded, requests-AllRecorded}
use rhel9_app_micro.Memory.Interleavings.{state, server, rename, set_done, both_read_first}

abbrev event : String → String → String → String → AuditRow
event id actor action timestamp = record {
  id = id;
  actor = actor;
  action = action;
  entity_type = "task";
  entity_id = "id-0";
  timestamp = timestamp;
  detail = "";
}

abbrev logged : Disk
logged = record disk {
  audits =
      event "e1" "admin" "create" "1"
      ∷ event "e2" "user" "update" "2"
      ∷ event "e3" "admin" "update" "3"
      ∷ event "e4" "admin" "update" "4"
      ∷ [];
}

abbrev ids : Except AppError (List (AuditEvent ℕ)) → List String
ids (ok es) = map (λ (e : AuditEvent ℕ). e.id) es
ids (err e) = []

-- The latest two updates by the admin, the latest first.
latest_updates :
    ids (Db.list_audit memory (some "admin") (some "update") (pos 2) logged).0 ≡ "e4" ∷ "e3" ∷ []
unfolding Db.list_audit audit_query collect get_conn row_to_event parse_ts parse_u32 parse_digits
    select_audit is_audit_query matching sort audit_columns
latest_updates = refl

list_audit-ListsAudit_example :
    ListsAudit memory on_disk
      (some "admin")
      none
      3
      logged
      (Db.list_audit memory (some "admin") none (pos 3) logged)
list_audit-ListsAudit_example =
    list_audit-ListsAudit memory on_disk memory-IsLawful (some "admin") none 3 logged

-- Two updates whose steps interleave are both in the log.
requests-AllRecorded_example :
    let (ps, s) =
      interleave both_read_first
        (map (handle_steps memory state) (rename ∷ set_done ∷ []))
        server in
    AllRecorded memory on_disk memory-IsLawful state (rename ∷ set_done ∷ []) ps s
requests-AllRecorded_example =
    requests-AllRecorded memory on_disk memory-IsLawful state (rename ∷ set_done ∷ [])
      both_read_first server

abbrev too_many : AuditQuery
too_many = record { actor = some "admin"; action = none; limit = some (pos 9000) }

list_audit-AtMost_example : AtMost 500 (Handlers.list_audit memory plain_user too_many logged).0
list_audit-AtMost_example =
    list_audit-AtMost memory on_disk memory-IsLawful plain_user too_many logged
