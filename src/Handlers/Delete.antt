-- ===== src/Handlers/Delete.antt =====
-- What `delete_task` of src/handlers.rs does, on every way out.
use rhel9_app_micro.Prelude.{
  ℕ, String, ◌≡◌, refl, ◌∙◌, ap, ◌⊎◌, inl, inr, some, [], ◌∷◌, ◌++◌, Bool-cases,
}
use rhel9_app_micro.Outcome.{Except, ok, err, pure, ◌>>◌, bind-ensures}
use rhel9_app_micro.Errors.{AppError, IsInternal}
use rhel9_app_micro.Platform.{Platform}
use rhel9_app_micro.Extract.{AuthUser}
use rhel9_app_micro.Db
use rhel9_app_micro.Db.Lawful.{Tables, Same, IsLawful}
use rhel9_app_micro.Db.Lawful.Rows.{TaskRow, find_task, remove_where}
use rhel9_app_micro.Db.Reads.{Same-trans}
use rhel9_app_micro.Db.Outcomes.{Deletes, Logs}
use rhel9_app_micro.Db.Writes.{delete_task-Deletes, record_audit-Logs}
use rhel9_app_micro.Handlers.{existing_task, is_stranger, delete_task}
use rhel9_app_micro.Handlers.Create.{Logged}
use rhel9_app_micro.Handlers.Permission.{
  MayChange, may_change, stranger_plain, Finds, Refusal, Finds-Refusal, existing_task-Finds,
}

module _ (P : Platform) (T : Tables P) where
  -- The caller may change the row that the request names; it is gone, and no other row is.
  abbrev pub Removed : AuthUser → String → P.World → P.World → Type 0
  Removed user id w w' =
      ((r : TaskRow) × (find_task id (T.tasks w) ≡ some r) × MayChange user r)
      × (T.tasks w' ≡ remove_where id (T.tasks w))

  abbrev pub DeleteOutcome : AuthUser → String → P.World → Except AppError ℕ × P.World → Type 0
  DeleteOutcome user id w (ok status, w') =
      (status ≡ 204) × Removed user id w w' × Logged P T user.username "delete" id "" w w'
  DeleteOutcome user id w (err e, w') =
      Refusal P T user id "you may only delete your own tasks" w w' e
      ⊎ (IsInternal e × (T.audits w' ≡ T.audits w) × Removed user id w w')

  module _ (L : IsLawful P T) (user : AuthUser) (id : String) (w : P.World) where
    delete_permitted :
        (w₁ : P.World)
        → Same P T w w₁
        → (r : TaskRow) → find_task id (T.tasks w) ≡ some r
        → MayChange user r
        → DeleteOutcome user id w (
            (Db.delete_task P id
                >> (Db.record_audit P user.username "delete" "task" id "" >> pure 204))
              w₁)
    delete_permitted w₁ s r f p =
        bind-ensures (Db.delete_task P id) _ w₁ (Deletes P T id w₁) (DeleteOutcome user id w)
          (delete_task-Deletes P T L id w₁)
          (λ _ w₂ h₂.
            let gone : Removed user id w w₂ = ((r, f, p), h₂.0 ∙ rw (s.tasks)) in
            bind-ensures (Db.record_audit P user.username "delete" "task" id "") _ w₂
              (Logs P T user.username "delete" "task" id "" w₂) (DeleteOutcome user id w)
              (record_audit-Logs P T L user.username "delete" "task" id "" w₂)
              (λ _ w₃ h₃. (
                refl,
                (gone.0, h₃.0 ∙ gone.1),
                (
                  h₃.1.0,
                  h₃.1.1,
                  h₃.1.2 ∙ ap (λ l. l ++ h₃.1.0 ∷ []) (h₂.1 ∙ s.audits),
                  rw (h₂.1, s.audits) at h₃.1.3,
                ),
              ))
              (λ e w₃ h₃. inr (h₃.1, h₃.0.audits ∙ h₂.1 ∙ s.audits, (gone.0, h₃.0.tasks ∙ gone.1))))
          (λ e w₂ h₂. inl (Refusal.broken (Same-trans P T s h₂.0) h₂.1))

    -- Over a lawful database: on success the response is 204, the caller was an admin or the owner
    -- of the row with that id, that row is gone and no other, and the log has grown by one event
    -- `delete` of the caller. A refusal is 404 if no row has the id, 403 if the caller is neither
    -- an admin nor the owner, or internal, and changes nothing. If the row is gone and the event
    -- could not be stored, the error is internal and the log unchanged.
    pub delete_task-DeleteOutcome : DeleteOutcome user id w (delete_task P user id w)
    unfolding delete_task
    delete_task-DeleteOutcome =
        bind-ensures (existing_task P id) _ w (Finds P T id w) (DeleteOutcome user id w)
          (existing_task-Finds P T L id w)
          (λ existing w₁ (s, (r, f, d)). elim (Bool-cases (is_stranger P user existing)) [
            | inl other ↦
                let no = stranger_plain P user r existing d other in
                rw other (inl (Refusal.stranger r s f no.0 no.1 refl))
            | inr allowed ↦
                rw allowed (delete_permitted w₁ s r f (may_change P user r existing d allowed))
          ])
          (λ e w₁ h₁. inl (Finds-Refusal P T h₁))
