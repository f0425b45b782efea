-- ===== src/Handlers/Update.antt =====
-- What `update_task` of src/handlers.rs does, on every way out.
use rhel9_app_micro.Prelude.{
  String, ◌<>◌, ◌≡◌, refl, ◌∙◌, sym, ap, ◌⊎◌, inl, inr, some, unwrap_or, map_option, [], ◌∷◌, ◌++◌,
  Bool-cases, if◌then◌else◌,
}
use rhel9_app_micro.Outcome.{Except, ok, err, Except-cases, pure, raise, ◌>>=◌, ◌>>◌, bind-ensures}
use rhel9_app_micro.Text.{trim}
use rhel9_app_micro.Models.{Task, todo, status_as_str, status_from_str, UpdateTask, validate_update}
use rhel9_app_micro.Errors.{AppError, bad_request, forbidden, IsInternal}
use rhel9_app_micro.Platform.{Platform}
use rhel9_app_micro.Extract.{AuthUser}
use rhel9_app_micro.Db
use rhel9_app_micro.Db.Lawful.{Tables, Same, IsLawful}
use rhel9_app_micro.Db.Lawful.Rows.{TaskRow, find_task, patch_where}
use rhel9_app_micro.Db.Reads.{Decodes, Same-trans}
use rhel9_app_micro.Db.Outcomes.{task_patch, Updates, Logs}
use rhel9_app_micro.Db.Writes.{update_task-Updates, record_audit-Logs}
use rhel9_app_micro.Handlers.{existing_task, is_stranger, update_task}
use rhel9_app_micro.Handlers.Create.{Logged}
use rhel9_app_micro.Handlers.Permission.{
  MayChange, may_change, stranger_plain, Finds, Refusal, Finds-Refusal, existing_task-Finds,
}

module _ (P : Platform) where
  -- The task that an update makes of a row: the fields that the body gives, the title trimmed, and
  -- the row's own for the others.
  pub record IsPatched (r : TaskRow) (input : UpdateTask) (t : Task P.DateTime) : Type 0 where
    pub id : t.id ≡ r.id
    pub owner : t.owner ≡ r.owner
    pub title : t.title ≡ unwrap_or (map_option trim input.title) r.title
    pub description : t.description ≡ unwrap_or input.description r.description
    pub status : t.status ≡ unwrap_or input.status (unwrap_or (status_from_str r.status) todo)

  pub IsPatched-patched :
      (r : TaskRow) (input : UpdateTask) (existing : Task P.DateTime) (now : P.DateTime)
      → Decodes P r existing
      → IsPatched r input (Db.patched P existing input now)
  IsPatched-patched r input existing now d = record {
    id = d.id;
    owner = d.owner;
    title = ap (unwrap_or (map_option trim input.title)) d.title;
    description = ap (unwrap_or input.description) d.description;
    status = ap (unwrap_or input.status) d.status;
  }

module _ (P : Platform) (T : Tables P) where
  -- What the clock says after the task was read.
  abbrev pub update_time : String → P.World → P.DateTime
  update_time id w = (P.utc_now (existing_task P id w).1).0

  -- The task keeps the time of its creation, as the text of the row reads, and gets the time of
  -- the update.
  pub record IsStamped (id : String) (t : Task P.DateTime) (w : P.World) : Type 0 where
    pub created_at :
        (r : TaskRow) (c : P.DateTime)
        → find_task id (T.tasks w) ≡ some r
        → P.parse_from_rfc3339 r.created_at ≡ some c
        → t.created_at ≡ c
    pub updated_at : t.updated_at ≡ update_time id w

  -- The caller may change the row that the request names; it is patched, and no other row is.
  abbrev pub Changed : AuthUser → String → UpdateTask → Task P.DateTime → P.World → P.World → Type 0
  Changed user id input t w w' =
      ((r : TaskRow) × (find_task id (T.tasks w) ≡ some r)
        × MayChange user r
        × IsPatched P r input t)
      × (T.tasks w' ≡ patch_where t.id (task_patch P t) (T.tasks w))

  abbrev pub UpdateOutcome :
      AuthUser
      → String
      → UpdateTask
      → P.World
      → Except AppError (Task P.DateTime) × P.World
      → Type 0
  UpdateOutcome user id input w (ok t, w') =
      (validate_update input ≡ ok tt)
      × Changed user id input t w w'
      × Logged P T user.username "update" t.id ("status=" <> status_as_str t.status) w w'
      × IsStamped id t w
  UpdateOutcome user id input w (err e, w') =
      ((w' ≡ w) × ((m : String) × (validate_update input ≡ err m) × (e ≡ bad_request m)))
      ⊎ ((validate_update input ≡ ok tt)
          × (Refusal P T user id "you may only modify your own tasks" w w' e
              ⊎ (IsInternal e
                  × (T.audits w' ≡ T.audits w)
                  × ((t : Task P.DateTime) × Changed user id input t w w' × IsStamped id t w))))

  module _ (L : IsLawful P T) (user : AuthUser) (id : String) (input : UpdateTask) (w : P.World)
      (v : validate_update input ≡ ok tt) where
    update_permitted :
        (existing : Task P.DateTime) (w₁ : P.World)
        → existing_task P id w ≡ (ok existing, w₁)
        → Same P T w w₁
        → (r : TaskRow) → find_task id (T.tasks w) ≡ some r
        → Decodes P r existing
        → MayChange user r
        → UpdateOutcome user id input w (
            (Db.update_task P existing input >>= λ updated.
            Db.record_audit P user.username "update" "task" updated.id
              ("status=" <> status_as_str updated.status)
            >> pure updated)
              w₁)
    update_permitted existing w₁ q s r f d p =
        bind-ensures (Db.update_task P existing input) _ w₁ (Updates P T existing input w₁)
          (UpdateOutcome user id input w) (update_task-Updates P T L existing input w₁)
          (λ t w₂ h₂.
            let made : IsPatched P r input t =
              rw (h₂.0) (IsPatched-patched P r input existing (P.utc_now w₁).0 d) in
            let now : IsStamped id t w = record {
              created_at =
                  λ x c g e. let same : r ≡ x = cc (f, g) in rw (h₂.0) (d.created_at c (rw same e));
              updated_at = rw (h₂.0) (ap (λ x. (P.utc_now x.1).0) (sym q));
            } in
            let same_id : t.id ≡ existing.id = made.id ∙ sym d.id in
            let changed : Changed user id input t w w₂ =
              ((r, f, p, made), h₂.1 ∙ (rw (s.tasks, same_id))) in
            bind-ensures
              (Db.record_audit P user.username "update" "task" t.id
                ("status=" <> status_as_str t.status))
              _ w₂
              (Logs P T user.username "update" "task" t.id ("status=" <> status_as_str t.status) w₂)
              (UpdateOutcome user id input w)
              (record_audit-Logs P T L user.username "update" "task" t.id
                ("status=" <> status_as_str t.status) w₂)
              (λ _ w₃ h₃. (
                v,
                (changed.0, h₃.0 ∙ changed.1),
                (
                  h₃.1.0,
                  h₃.1.1,
                  h₃.1.2 ∙ ap (λ l. l ++ h₃.1.0 ∷ []) (h₂.2 ∙ s.audits),
                  rw (h₂.2, s.audits) at h₃.1.3,
                ),
                now,
              ))
              (λ e w₃ h₃. inr (
                v,
                inr (
                  h₃.1,
                  h₃.0.audits ∙ h₂.2 ∙ s.audits,
                  (t, (changed.0, h₃.0.tasks ∙ changed.1), now),
                ),
              )))
          (λ e w₂ h₂. inr (v, inl (Refusal.broken (Same-trans P T s h₂.0) h₂.1)))

    update_valid : UpdateOutcome user id input w (
        (existing_task P id >>= λ existing.
        if is_stranger P user existing
        then raise (forbidden "you may only modify your own tasks")
        else (Db.update_task P existing input >>= λ updated.
            Db.record_audit P user.username "update" "task" updated.id
              ("status=" <> status_as_str updated.status)
            >> pure updated))
          w)
    update_valid =
        bind-ensures (existing_task P id) _ w (λ x. Finds P T id w x × (existing_task P id w ≡ x))
          (UpdateOutcome user id input w) (existing_task-Finds P T L id w, refl)
          (λ existing w₁ ((s, (r, f, d)), q). elim (Bool-cases (is_stranger P user existing)) [
            | inl other ↦
                let no = stranger_plain P user r existing d other in
                rw other (inr (v, inl (Refusal.stranger r s f no.0 no.1 refl)))
            | inr allowed ↦
                rw allowed
                  (update_permitted existing w₁ q s r f d (may_change P user r existing d allowed))
          ])
          (λ e w₁ h₁. inr (v, inl (Finds-Refusal P T h₁.0)))

  module _ (L : IsLawful P T) where
    -- Over a lawful database: on success the body was valid, the caller was an admin or the owner
    -- of the row with that id, the task returned has the fields that the body gives (the title
    -- trimmed) and the row's own for the others, id and owner among them, the time of the creation
    -- as the row's text reads, and the time of the update from the clock after the task was read;
    -- that row is patched and no other, and the log has grown by one event `update` of the caller.
    -- An invalid body is answered by 400 and changes nothing. A refusal is 404 if no row has the
    -- id, 403 if the caller is neither an admin nor the owner, or internal, and changes nothing. If
    -- the row is patched and the event could not be stored, the error is internal and the log
    -- unchanged.
    pub update_task-UpdateOutcome :
        (user : AuthUser) (id : String) (input : UpdateTask) (w : P.World)
        → UpdateOutcome user id input w (update_task P user id input w)
    unfolding update_task
    update_task-UpdateOutcome user id input w = elim (Except-cases (validate_update input)) [
      | inl (a, v) ↦ rw v (update_valid L user id input w v)
      | inr (m, v) ↦ rw v (inl (refl, (m, v, refl)))
    ]
