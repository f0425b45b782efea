-- ===== src/Ledger/Creation.antt =====
-- `create_task` of src/handlers.rs does what the ledger promises, where the database is up.
use rhel9_app_micro.Prelude.{
  ℕ, String, ◌<>◌, ◌≡◌, refl, ◌∙◌, ap, inl, inr, Option-cases, none, some, [], ◌∷◌, ◌++◌,
}
use rhel9_app_micro.Outcome.{Except, ok, Except-cases, pure, ◌>>=◌, ◌>>◌, IsOk, bind-ensures}
use rhel9_app_micro.Models.{Task, CreateTask, validate_create}
use rhel9_app_micro.Errors.{AppError}
use rhel9_app_micro.Platform.{Platform}
use rhel9_app_micro.Extract.{AuthUser}
use rhel9_app_micro.Db
use rhel9_app_micro.Db.Lawful.{Tables, IsLawful}
use rhel9_app_micro.Db.Lawful.Rows.{find_task}
use rhel9_app_micro.Db.Outcomes.{task_row, IsNew, Creates}
use rhel9_app_micro.Db.Writes.{create_task-Creates}
use rhel9_app_micro.Db.Available.{IsAvailable, create_task-IsOk}
use rhel9_app_micro.Handlers.{create_task}
use rhel9_app_micro.Api.{task}
use rhel9_app_micro.Ledger.{create, created, fresh_entry, decide, put}
use rhel9_app_micro.Ledger.View.{task_entry, seen, ledger-Same, entry-task_row, seen-append}
use rhel9_app_micro.Ledger.Verdicts.{Drawn, replied, MeetsLogged}
use rhel9_app_micro.Ledger.Logging.{record_audit-LogsChange}

module _ (P : Platform) where
  IsNew-entry :
      (user : AuthUser) (input : CreateTask) (t : Task P.DateTime)
      → IsNew P user.username input t
      → task_entry t ≡ fresh_entry user input
  IsNew-entry user input t is = rw (is.title, is.description, is.status, is.owner_kept) refl

module _ (P : Platform) (T : Tables P) where
  -- What a row that was added looks like in the ledger.
  pub seen_created :
      (user : AuthUser) (input : CreateTask) (t : Task P.DateTime) (w w' : P.World)
      → IsNew P user.username input t
      → find_task t.id (T.tasks w) ≡ none
      → T.tasks w' ≡ T.tasks w ++ task_row P t ∷ []
      → seen (T.tasks w') ≡ put t.id (some (fresh_entry user input)) (seen (T.tasks w))
  seen_created user input t w w' is fresh added =
      ap seen added ∙ seen-append (task_row P t) (T.tasks w) fresh ∙ (λ i.
        put t.id (some ((entry-task_row P t ∙ IsNew-entry P user input t is) i)) (seen (T.tasks w)))

module _ (P : Platform) (T : Tables P) (L : IsLawful P T) (A : IsAvailable P T) (user : AuthUser)
    (input : CreateTask) (w : P.World) where
  -- The reply to a result is as the ledger promises for some drawn ids.
  abbrev pub Creation : Except AppError (ℕ × Task P.DateTime) × P.World → Type 0
  Creation x =
      (id : String) × Drawn P id
      × MeetsLogged P T user (create id input) w (replied (λ r. (r.0, task r.1)) x)

  drawn : String
  drawn = (P.new_v4 (P.utc_now w).1).0

  -- The handler behind the check of the body.
  create_valid :
      validate_create input ≡ ok tt
      → Creation (
          (Db.create_task P user.username input >>= λ t.
          Db.record_audit P user.username "create" "task" t.id ("title=" <> t.title)
          >> pure (201, t))
            w)
  unfolding decide drawn
  create_valid v =
      bind-ensures (Db.create_task P user.username input) _ w
        (λ x. Creates P T user.username input w x × (find_task drawn (T.tasks w) ≡ none → IsOk x.0))
        Creation
        (
          create_task-Creates P T L user.username input w,
          create_task-IsOk P T L A user.username input w,
        )
        (λ t w₁ ((is, fresh, rows, log), _).
          let e = fresh_entry user input in
          let (event, from, meets) =
            record_audit-LogsChange P T L A user "create" t.id ("title=" <> e.title) (some e)
              (created t.id e) w (λ (r : ℕ × Task P.DateTime). (r.0, task r.1)) (201, t) t.id
              ("title=" <> t.title) w₁ (t, refl, refl, IsNew-entry P user input t is) refl
              (rw (is.title) refl) (seen_created P T user input t w w₁ is fresh rows) log in
          (t.id, is.drawn, (event, from, rw (v, fresh) meets)))
        (λ e w₁ (h, up). elim (Option-cases (find_task drawn (T.tasks w))) [
          | inl fresh ↦ absurd (up fresh)
          | inr (r, f) ↦ (
            drawn,
            ((P.utc_now w).1, refl),
            (drawn, ((P.utc_now w).1, refl), rw (v, f) ((e, h.1, refl), ledger-Same P T h.0)),
          )
        ])

  -- A creation meets the promise, for the ids that it draws.
  pub create_task-Creation : Creation (create_task P user input w)
  unfolding create_task drawn
  create_task-Creation = elim (Except-cases (validate_create input)) [
    | inl (a, v) ↦ rw v (create_valid v)
    | inr (m, v) ↦ (
      drawn,
      ((P.utc_now w).1, refl),
      (drawn, ((P.utc_now w).1, refl), unfold decide in rw v (refl, refl)),
    )
  ]
