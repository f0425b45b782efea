-- ===== src/Handlers/Create.antt =====
-- What `create_task` of src/handlers.rs does, on every way out.
use rhel9_app_micro.Prelude.{
  ℕ, String, ◌<>◌, ◌≡◌, refl, ◌∙◌, ◌⊎◌, inl, inr, none, [], ◌∷◌, ◌++◌, ap,
}
use rhel9_app_micro.Outcome.{Except, ok, err, Except-cases, pure, ◌>>=◌, ◌>>◌, bind-ensures}
use rhel9_app_micro.Models.{Task, CreateTask, validate_create}
use rhel9_app_micro.Errors.{AppError, bad_request, IsInternal}
use rhel9_app_micro.Platform.{Platform}
use rhel9_app_micro.Extract.{AuthUser}
use rhel9_app_micro.Db
use rhel9_app_micro.Db.Lawful.{Tables, IsLawful}
use rhel9_app_micro.Db.Lawful.Rows.{AuditRow, find_task}
use rhel9_app_micro.Db.Outcomes.{task_row, IsNew, IsEvent, HasNewId, Creates, Logs}
use rhel9_app_micro.Db.Writes.{create_task-Creates, record_audit-Logs}
use rhel9_app_micro.Handlers.{create_task}

module _ (P : Platform) (T : Tables P) where
  -- The task is in the table, in one new row with a new id, and no other row has changed.
  abbrev pub Stored : AuthUser → CreateTask → Task P.DateTime → P.World → P.World → Type 0
  Stored user input t w w' =
      (validate_create input ≡ ok tt)
      × IsNew P user.username input t
      × (find_task t.id (T.tasks w) ≡ none)
      × (T.tasks w' ≡ T.tasks w ++ task_row P t ∷ [])

  -- The log has grown by this one event, under a new id.
  abbrev pub Logged : String → String → String → String → P.World → P.World → Type 0
  Logged actor action id detail w w' =
      (e : AuditRow) × IsEvent P actor action "task" id detail e
      × (T.audits w' ≡ T.audits w ++ e ∷ [])
      × HasNewId P T e w

  abbrev pub CreateOutcome :
      AuthUser → CreateTask → P.World → Except AppError (ℕ × Task P.DateTime) × P.World → Type 0
  CreateOutcome user input w (ok (status, t), w') =
      (status ≡ 201)
      × Stored user input t w w'
      × Logged user.username "create" t.id ("title=" <> t.title) w w'
  CreateOutcome user input w (err e, w') =
      ((w' ≡ w) × ((m : String) × (validate_create input ≡ err m) × (e ≡ bad_request m)))
      ⊎ (IsInternal e
          × (validate_create input ≡ ok tt)
          × (T.audits w' ≡ T.audits w)
          × ((T.tasks w' ≡ T.tasks w) ⊎ ((t : Task P.DateTime) × Stored user input t w w')))

  module _ (L : IsLawful P T) where
    create_valid :
        (user : AuthUser) (input : CreateTask) (w : P.World)
        → validate_create input ≡ ok tt
        → CreateOutcome user input w (
            (Db.create_task P user.username input >>= λ t.
            Db.record_audit P user.username "create" "task" t.id ("title=" <> t.title)
            >> pure (201, t))
              w)
    create_valid user input w v =
        bind-ensures (Db.create_task P user.username input) _ w (Creates P T user.username input w)
          (CreateOutcome user input w) (create_task-Creates P T L user.username input w)
          (λ t w₁ h₁.
            bind-ensures
              (Db.record_audit P user.username "create" "task" t.id ("title=" <> t.title)) _ w₁
              (Logs P T user.username "create" "task" t.id ("title=" <> t.title) w₁)
              (CreateOutcome user input w)
              (record_audit-Logs P T L user.username "create" "task" t.id ("title=" <> t.title) w₁)
              (λ _ w₂ h₂. (
                refl,
                (v, h₁.0, h₁.1, h₂.0 ∙ h₁.2),
                (h₂.1.0, h₂.1.1, h₂.1.2 ∙ ap (λ l. l ++ h₂.1.0 ∷ []) h₁.3, rw (h₁.3) at h₂.1.3),
              ))
              (λ e w₂ h₂.
                inr (h₂.1, v, h₂.0.audits ∙ h₁.3, inr (t, (v, h₁.0, h₁.1, h₂.0.tasks ∙ h₁.2)))))
          (λ e w₁ h₁. inr (h₁.1, v, h₁.0.audits, inl h₁.0.tasks))

    -- Over a lawful database: on success the response is 201, the body is valid, its task stands in
    -- one new row with a new id, owned by the caller, and the log has grown by one event `create`
    -- of the caller for it. An invalid body is answered by 400 with the message of the validation,
    -- and changes nothing. Any other error is internal and leaves the log unchanged, and the tasks
    -- too, unless the row was stored and the event could not be.
    pub create_task-CreateOutcome :
        (user : AuthUser) (input : CreateTask) (w : P.World)
        → CreateOutcome user input w (create_task P user input w)
    unfolding create_task
    create_task-CreateOutcome user input w = elim (Except-cases (validate_create input)) [
      | inl (a, v) ↦ rw v (create_valid user input w v)
      | inr (m, v) ↦ rw v (inl (refl, (m, v, refl)))
    ]
