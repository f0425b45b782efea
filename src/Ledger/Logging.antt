-- ===== src/Ledger/Logging.antt =====
-- `record_audit` of src/db.rs behind a change of a task, where the database is up: the event is
-- stored, unless the id that is drawn for it is in use.
use rhel9_app_micro.Prelude.{
  String, ◌≡◌, refl, ◌∙◌, ap, inl, inr, true, false, Option, Option-cases, none, [], ◌∷◌, ◌++◌,
}
use rhel9_app_micro.Outcome.{pure, ◌>>◌, IsOk, bind-ensures}
use rhel9_app_micro.Platform.{Platform}
use rhel9_app_micro.Extract.{AuthUser}
use rhel9_app_micro.Db.{get_conn, record_audit}
use rhel9_app_micro.Db.Lawful.{Tables, IsLawful}
use rhel9_app_micro.Db.Lawful.Rows.{AuditRow, find_audit}
use rhel9_app_micro.Db.Outcomes.{IsEvent, Logs}
use rhel9_app_micro.Db.Writes.{record_audit-Logs}
use rhel9_app_micro.Db.Available.{IsAvailable, event_id, record_audit-IsOk}
use rhel9_app_micro.Api.{Reply}
use rhel9_app_micro.Ledger.{Entry, Verdict, put, has_event, change_logged}
use rhel9_app_micro.Ledger.View.{is_some, seen, ledger, ledger-change, has_event-view}
use rhel9_app_micro.Ledger.Verdicts.{Drawn, Matches, replied}

module _ (P : Platform) (T : Tables P) (L : IsLawful P T) (A : IsAvailable P T) (user : AuthUser)
    (action id detail : String) (o : Option Entry) (v : Verdict) (w : P.World) where
  -- A reply and a world are what the ledger promises of a change whose event has some drawn id.
  abbrev pub LogsChange : Reply P.DateTime × P.World → Type 0
  LogsChange r =
      (event : String) × Drawn P event
      × (let (v', l) = change_logged user action id detail event o v (ledger P T w) in
          Matches v' r.0 × (ledger P T r.1 ≡ l))

  -- An event under a new id, behind the change.
  stored-LogsChange :
      (reply : Reply P.DateTime) (e : AuditRow) (x : P.World) (w' : P.World)
      → Matches v reply
      → seen (T.tasks w') ≡ put id o (seen (T.tasks w))
      → IsEvent P user.username action "task" id detail e
      → T.audits w' ≡ T.audits w ++ e ∷ []
      → e.id ≡ (P.new_v4 x).0
      → find_audit e.id (T.audits w) ≡ none
      → LogsChange (reply, w')
  stored-LogsChange reply e x w' m s is grown drawn fresh =
      let unused : has_event e.id (ledger P T w).log ≡ false =
        has_event-view e.id (T.audits w) ∙ ap is_some fresh in
      (e.id, (x, drawn), rw unused (m, ledger-change P T user action id detail o e w w' s is grown))

  -- The logging of a change that was made in `w₂`, of which the handler returns `b`.
  pub record_audit-LogsChange :
      {B : Type 0} (f : B → Reply P.DateTime) (b : B) (task_id text : String) (w₂ : P.World)
      → Matches v (f b)
      → task_id ≡ id
      → text ≡ detail
      → seen (T.tasks w₂) ≡ put id o (seen (T.tasks w))
      → T.audits w₂ ≡ T.audits w
      → LogsChange
          (replied f ((record_audit P user.username action "task" task_id text >> pure b) w₂))
  record_audit-LogsChange f b task_id text w₂ m same_id same_text s log =
      bind-ensures (record_audit P user.username action "task" task_id text) _ w₂
        (λ x.
          Logs P T user.username action "task" task_id text w₂ x
          × (find_audit (event_id P T w₂) (T.audits w₂) ≡ none → IsOk x.0))
        (λ x. LogsChange (replied f x))
        (
          record_audit-Logs P T L user.username action "task" task_id text w₂,
          record_audit-IsOk P T L A user.username action "task" task_id text w₂,
        )
        (λ _ w' ((rows, (e, is, grown, ((x, drawn), fresh))), _).
          stored-LogsChange (f b) e x w' m (ap seen rows ∙ s)
            (record {
              by = is.by;
              did = is.did;
              on_type = is.on_type;
              on_id = is.on_id ∙ same_id;
              with_detail = is.with_detail ∙ same_text;
            })
            (grown ∙ ap (λ l. l ++ e ∷ []) log) drawn (rw log at fresh))
        (λ e w' (h, up). elim (Option-cases (find_audit (event_id P T w₂) (T.audits w₂))) [
          | inl fresh ↦ absurd (up fresh)
          | inr (old, found) ↦
              let used : has_event (event_id P T w₂) (ledger P T w).log ≡ true =
                has_event-view (event_id P T w₂) (T.audits w) ∙ ap is_some (rw log at found) in
              (
                event_id P T w₂,
                ((get_conn P w₂).1, refl),
                rw used ((e, h.1, refl), rw (h.0.tasks, s, h.0.audits, log) refl),
              )
        ])
