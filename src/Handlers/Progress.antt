-- ===== src/Handlers/Progress.antt =====
-- The handlers of src/handlers.rs succeed where the database is up and the caller may do it.
use rhel9_app_micro.Prelude.{
  String, ◌<>◌, ◌≡◌, refl, Bool, inl, inr, Bool-cases, none, some, false, if◌then◌else◌,
}
use rhel9_app_micro.Outcome.{ok, Act, ◌>>=◌, IsOk, bind-IsOk}
use rhel9_app_micro.Models.{
  Task, CreateTask, UpdateTask, status_as_str, validate_create, validate_update,
}
use rhel9_app_micro.Errors.{AppError}
use rhel9_app_micro.Platform.{Platform}
use rhel9_app_micro.Extract.{AuthUser}
use rhel9_app_micro.Db
use rhel9_app_micro.Db.{App}
use rhel9_app_micro.Db.Outcomes.{Creates, Updates, Deletes}
use rhel9_app_micro.Db.Writes.{create_task-Creates, update_task-Updates, delete_task-Deletes}
use rhel9_app_micro.Db.Lawful.{Tables, Same, IsLawful}
use rhel9_app_micro.Db.Lawful.Rows.{TaskRow, find_task, find_audit}
use rhel9_app_micro.Db.Reads.{Decodes, ReadsTask, get_task-ReadsTask}
use rhel9_app_micro.Db.Available.{
  IsAvailable, event_id, get_task-IsOk, create_task-IsOk, update_task-IsOk, delete_task-IsOk,
  record_audit-IsOk,
}
use rhel9_app_micro.Handlers.{existing_task, is_stranger, create_task, update_task, delete_task}
use rhel9_app_micro.Handlers.Permission.{MayChange, stranger_plain, Finds, existing_task-Finds}

module _ (P : Platform) (T : Tables P) where
  -- The id that is drawn for the event that is logged after `m` is not in use.
  abbrev pub DrawsNewEvent : {B : Type 0} → App P B → P.World → Type 0
  DrawsNewEvent m w = find_audit (event_id P T (m w).1) (T.audits w) ≡ none

  -- What `update_task` and `delete_task` do before they log it.
  abbrev pub updating : String → UpdateTask → App P (Task P.DateTime)
  updating id input = do existing ← existing_task P id; Db.update_task P existing input

  abbrev pub deleting : String → App P Bool
  deleting id = do existing ← existing_task P id; Db.delete_task P id

module _ (P : Platform) (T : Tables P) (L : IsLawful P T) (A : IsAvailable P T) where
  -- Over a lawful database that is up, a valid body is stored by any user, if neither the new id
  -- of the task nor that of its event is in use.
  pub create_task-succeeds :
      (user : AuthUser) (input : CreateTask) (w : P.World)
      → validate_create input ≡ ok tt
      → find_task (P.new_v4 (P.utc_now w).1).0 (T.tasks w) ≡ none
      → DrawsNewEvent P T (Db.create_task P user.username input) w
      → IsOk (create_task P user input w).0
  unfolding create_task
  create_task-succeeds user input w v fresh unused = rw v (
      bind-IsOk (Db.create_task P user.username input) _ w
        (λ x. Creates P T user.username input w x × (Db.create_task P user.username input w ≡ x))
        (create_task-Creates P T L user.username input w, refl)
        (create_task-IsOk P T L A user.username input w fresh)
        (λ t w₁ (h, q).
          bind-IsOk (Db.record_audit P user.username "create" "task" t.id ("title=" <> t.title)) _
            w₁ (λ x. Unit) tt
            (record_audit-IsOk P T L A user.username "create" "task" t.id ("title=" <> t.title) w₁
              (rw (h.3) (rw q at unused)))
            (λ _ w₂ k. tt)))

  pub existing_task-IsOk :
      (id : String) (w : P.World) (r : TaskRow)
      → find_task id (T.tasks w) ≡ some r
      → IsOk (existing_task P id w).0
  unfolding existing_task
  existing_task-IsOk id w r f =
      bind-IsOk (Db.get_task P id) _ w (ReadsTask P T id w) (get_task-ReadsTask P T L id w)
        (get_task-IsOk P T A.reads id w)
        (elim [ none ↦ λ w₁ h₁. cc (f, h₁.1) | some t ↦ λ w₁ h₁. tt ])

  pub not_stranger :
      (user : AuthUser) (r : TaskRow) (t : Task P.DateTime)
      → Decodes P r t
      → MayChange user r
      → is_stranger P user t ≡ false
  not_stranger user r t d may = elim (Bool-cases (is_stranger P user t)) [
    | inl other ↦
        let no = stranger_plain P user r t d other in
        elim may [ inl admin ↦ cc (admin, no.0) | inr owner ↦ absurd (no.1 owner) ]
    | inr allowed ↦ allowed
  ]

  -- The part of a handler behind the finding of the task and the test.
  permitted-IsOk :
      {B : Type 0} (user : AuthUser) (id : String) (w : P.World) (r : TaskRow)
      (refusal : Act AppError P.World B) (change : Task P.DateTime → Act AppError P.World B)
      → find_task id (T.tasks w) ≡ some r
      → MayChange user r
      → ((t : Task P.DateTime) (w₁ : P.World)
          → existing_task P id w ≡ (ok t, w₁)
          → Same P T w w₁
          → IsOk (change t w₁).0)
      → IsOk
          ((existing_task P id >>= λ existing.
              if is_stranger P user existing then refusal else change existing)
            w).0
  permitted-IsOk user id w r refusal change f may does =
      bind-IsOk (existing_task P id) _ w (λ x. Finds P T id w x × (existing_task P id w ≡ x))
        (existing_task-Finds P T L id w, refl) (existing_task-IsOk id w r f)
        (λ t w₁ ((s, (x, g, d)), q).
          let same : r ≡ x = cc (f, g) in
          rw (not_stranger user x t d (rw same at may)) (does t w₁ q s))

  -- Over a lawful database that is up, a valid update of a stored task, by an admin or the task's
  -- owner, succeeds, if the new id of its event is not in use.
  pub update_task-succeeds :
      (user : AuthUser) (id : String) (input : UpdateTask) (w : P.World) (r : TaskRow)
      → validate_update input ≡ ok tt
      → find_task id (T.tasks w) ≡ some r
      → MayChange user r
      → DrawsNewEvent P T (updating P T id input) w
      → IsOk (update_task P user id input w).0
  unfolding update_task
  update_task-succeeds user id input w r v f may unused = rw v (
      permitted-IsOk user id w r _ _ f may λ existing w₁ q s.
        bind-IsOk (Db.update_task P existing input) _ w₁
          (λ x. Updates P T existing input w₁ x × (Db.update_task P existing input w₁ ≡ x))
          (update_task-Updates P T L existing input w₁, refl)
          (update_task-IsOk P T L A existing input w₁)
          (λ t w₂ (h, k).
            bind-IsOk
              (Db.record_audit P user.username "update" "task" t.id
                ("status=" <> status_as_str t.status))
              _ w₂ (λ x. Unit) tt
              (record_audit-IsOk P T L A user.username "update" "task" t.id
                ("status=" <> status_as_str t.status) w₂ (rw (h.2, s.audits) (rw (q, k) at unused)))
              (λ _ w₃ k. tt)))

  -- Over a lawful database that is up, the deletion of a stored task, by an admin or the task's
  -- owner, succeeds, if the new id of its event is not in use.
  pub delete_task-succeeds :
      (user : AuthUser) (id : String) (w : P.World) (r : TaskRow)
      → find_task id (T.tasks w) ≡ some r
      → MayChange user r
      → DrawsNewEvent P T (deleting P T id) w
      → IsOk (delete_task P user id w).0
  unfolding delete_task
  delete_task-succeeds user id w r f may unused =
      permitted-IsOk user id w r _ _ f may λ existing w₁ q s.
        bind-IsOk (Db.delete_task P id) _ w₁
          (λ x. Deletes P T id w₁ x × (Db.delete_task P id w₁ ≡ x))
          (delete_task-Deletes P T L id w₁, refl) (delete_task-IsOk P T L A id w₁)
          λ b w₂ (h, k).
            bind-IsOk (Db.record_audit P user.username "delete" "task" id "") _ w₂ (λ x. Unit) tt
              (record_audit-IsOk P T L A user.username "delete" "task" id "" w₂
                (rw (h.1, s.audits) (rw (q, k) at unused)))
              (λ _ w₃ k. tt)
