-- ===== src/Ledger/Changes.antt =====
-- The changes of a task by src/handlers.rs, where the row is there and the user may change it, do what
-- the ledger promises.
use rhel9_app_micro.Prelude.{
  ℕ, String, ◌<>◌, ◌≡◌, refl, ◌∙◌, sym, ap, true, if◌then◌else◌, none, some,
}
use rhel9_app_micro.Outcome.{Except, ok, Act, raise, pure, ◌>>=◌, ◌>>◌, IsOk, bind-ensures}
use rhel9_app_micro.Models.{Task, UpdateTask, status_as_str, validate_update}
use rhel9_app_micro.Errors.{AppError, forbidden}
use rhel9_app_micro.Platform.{Platform}
use rhel9_app_micro.Extract.{AuthUser}
use rhel9_app_micro.Db.Lawful.{Tables, Same, IsLawful}
use rhel9_app_micro.Db.Lawful.Rows.{TaskRow, patch_row, find_task, patch_where}
use rhel9_app_micro.Db.Outcomes.{task_patch, Updates, Deletes}
use rhel9_app_micro.Db.Available.{IsAvailable, update_task-IsOk, delete_task-IsOk}
use rhel9_app_micro.Db.Reads.{Decodes}
use rhel9_app_micro.Db.Writes.{update_task-Updates, delete_task-Deletes}
use rhel9_app_micro.Db
use rhel9_app_micro.Handlers.{existing_task, is_stranger, update_task, delete_task}
use rhel9_app_micro.Models.Names.{status_from_str-status_as_str}
use rhel9_app_micro.Handlers.Update.{IsPatched, IsPatched-patched}
use rhel9_app_micro.Handlers.Progress.{existing_task-IsOk, not_stranger}
use rhel9_app_micro.Ledger.Logging.{LogsChange, record_audit-LogsChange}
use rhel9_app_micro.Api.{task, plain}
use rhel9_app_micro.Api.Rows.{find_task-id}
use rhel9_app_micro.Ledger.{
  Entry, update, delete, shown, gone, modify_own, delete_own, may, decide, put, revise,
}
use rhel9_app_micro.Ledger.View.{entry, task_entry, seen, seen-patch_where, seen-remove_where}
use rhel9_app_micro.Ledger.Located.{may-MayChange, Located, existing_task-Located}
use rhel9_app_micro.Ledger.Verdicts.{replied, MeetsLogged}

module _ (P : Platform) (T : Tables P) where
  -- What a row that was patched looks like in the ledger.
  seen_updated :
      (id : String) (input : UpdateTask) (t : Task P.DateTime) (r : TaskRow) (w w' : P.World)
      → find_task id (T.tasks w) ≡ some r
      → IsPatched P r input t
      → T.tasks w' ≡ patch_where t.id (task_patch P t) (T.tasks w)
      → (t.id ≡ id)
        × (task_entry t ≡ revise input (entry r))
        × (seen (T.tasks w') ≡ put id (some (revise input (entry r))) (seen (T.tasks w)))
  seen_updated id input t r w w' f made patched =
      let same_id : t.id ≡ id = made.id ∙ find_task-id id r (T.tasks w) f in
      let as_shown : task_entry t ≡ revise input (entry r) =
        rw (made.title, made.description, made.status, made.owner) refl in
      let stored : entry (patch_row (task_patch P t) r) ≡ task_entry t =
        rw (status_from_str-status_as_str t.status, made.owner) refl in
      (
        same_id,
        as_shown,
        ap seen patched
            ∙ seen-patch_where t.id (task_patch P t) r (T.tasks w) (rw same_id f)
            ∙ (λ i. put (same_id i) (some ((stored ∙ as_shown) i)) (seen (T.tasks w))),
      )

  module _ (L : IsLawful P T) (A : IsAvailable P T) (user : AuthUser) where
    -- The handler of a change, where the row is there and the user may change it.
    allowed-ensures :
        {B : Type 0} (Q : Except AppError B × P.World → Type 0) (id : String) (w : P.World)
        (r : TaskRow) (refusal : Act AppError P.World B)
        (k : Task P.DateTime → Act AppError P.World B)
        → find_task id (T.tasks w) ≡ some r
        → may user (entry r) ≡ true
        → ((t : Task P.DateTime) (w₁ : P.World) → Same P T w w₁ → Decodes P r t → Q (k t w₁))
        → Q (
            (existing_task P id >>= λ existing.
            if is_stranger P user existing then refusal else k existing)
              w)
    allowed-ensures Q id w r refusal k there yes_may rest =
        bind-ensures (existing_task P id) _ w (λ x. Located P T L A.reads id w x × IsOk x.0) Q
          (existing_task-Located P T L A.reads id w, existing_task-IsOk P T L A id w r there)
          (λ t w₁ ((s, (x, g, d)), _).
            let same : x ≡ r = cc (there, g) in
            let own : Decodes P r t = rw same at d in
            rw (not_stranger P T L A user r t own (may-MayChange user r yes_may)) (rest t w₁ s own))
          (λ e w₁ h. absurd h.1)

    pub update_allowed :
        (id : String) (input : UpdateTask) (w : P.World) (r : TaskRow)
        → validate_update input ≡ ok tt
        → find_task id (T.tasks w) ≡ some r
        → may user (entry r) ≡ true
        → MeetsLogged P T user
            (update id input)
            w
            (replied (λ t. (200, task t)) (update_task P user id input w))
    unfolding decide update_task
    update_allowed id input w r v f yes_may =
        let (event, from, meets) =
          allowed-ensures Q id w r (raise (forbidden modify_own)) change f yes_may changes in
        (event, from, rw (v, f, yes_may) meets)
      where
        e : Entry
        e = revise input (entry r)

        Q : Except AppError (Task P.DateTime) × P.World → Type 0
        Q x =
            LogsChange P T L A user "update" id ("status=" <> status_as_str e.status) (some e)
              (shown id e) w (replied (λ t. (200, task t)) x)

        change : Task P.DateTime → Act AppError P.World (Task P.DateTime)
        change existing = Db.update_task P existing input >>= λ updated.
            Db.record_audit P user.username "update" "task" updated.id
              ("status=" <> status_as_str updated.status)
            >> pure updated

        changes :
            (existing : Task P.DateTime) (w₁ : P.World)
            → Same P T w w₁
            → Decodes P r existing
            → Q (change existing w₁)
        changes existing w₁ s d =
            bind-ensures (Db.update_task P existing input) _ w₁
              (λ x. Updates P T existing input w₁ x × IsOk x.0) Q
              (
                update_task-Updates P T L existing input w₁,
                update_task-IsOk P T L A existing input w₁,
              )
              (λ t w₂ ((is, rows, log), _).
                let made : IsPatched P r input t =
                  rw is (IsPatched-patched P r input existing (P.utc_now w₁).0 d) in
                let same_id : t.id ≡ existing.id = made.id ∙ sym d.id in
                let done = seen_updated id input t r w w₂ f made (rows ∙ rw (s.tasks, same_id)) in
                record_audit-LogsChange P T L A user "update" id
                  ("status=" <> status_as_str e.status) (some e) (shown id e) w
                  (λ (t : Task P.DateTime). (200, task t)) t t.id
                  ("status=" <> status_as_str t.status) w₂ (t, refl, done.0, done.1) done.0
                  (rw (made.status) refl) done.2 (log ∙ s.audits))
              (λ e w₂ h. absurd h.1)

    pub delete_allowed :
        (id : String) (w : P.World) (r : TaskRow)
        → find_task id (T.tasks w) ≡ some r
        → may user (entry r) ≡ true
        → MeetsLogged P T user
            (delete id)
            w
            (replied (λ status. (status, plain)) (delete_task P user id w))
    unfolding decide delete_task
    delete_allowed id w r f yes_may =
        let (event, from, meets) =
          allowed-ensures Q id w r (raise (forbidden delete_own)) (λ existing. change) f yes_may
            changes in
        (event, from, rw (f, yes_may) meets)
      where
        Q : Except AppError ℕ × P.World → Type 0
        Q x =
            LogsChange P T L A user "delete" id "" none gone w
              (replied (λ status. (status, plain)) x)

        change : Act AppError P.World ℕ
        change =
            Db.delete_task P id
            >> (Db.record_audit P user.username "delete" "task" id "" >> pure 204)

        changes :
            (existing : Task P.DateTime) (w₁ : P.World)
            → Same P T w w₁
            → Decodes P r existing
            → Q (change w₁)
        changes existing w₁ s d =
            bind-ensures (Db.delete_task P id) _ w₁ (λ x. Deletes P T id w₁ x × IsOk x.0) Q
              (delete_task-Deletes P T L id w₁, delete_task-IsOk P T L A id w₁)
              (λ _ w₂ ((rows, log), _).
                record_audit-LogsChange P T L A user "delete" id "" none gone w
                  (λ (n : ℕ). (n, plain)) 204 id "" w₂ refl refl refl
                  (ap seen (rows ∙ rw (s.tasks) refl) ∙ seen-remove_where id (T.tasks w))
                  (log ∙ s.audits))
              (λ e w₂ h. absurd h.1)
