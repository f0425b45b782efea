-- ===== src/Api/Concurrent/Recorded.antt =====
-- Every change that was acknowledged is in the audit log, where requests are served together
-- (src/handlers.rs over src/db.rs).
use mathlib.Core.List.{append_assoc}
use rhel9_app_micro.Prelude.{
  String, ◌<>◌, ◌≡◌, ◌∙◌, ap, inl, inr, Bool, Bool-cases, Option, none, some, List, [], ◌∷◌, ◌++◌,
  if◌then◌else◌,
}
use rhel9_app_micro.Outcome.{Except, ok, err, Act, lift, map_err}
use rhel9_app_micro.Process.{finish, atom, ◌>>=◌}
use rhel9_app_micro.Process.Leaves.{Leaves, Leaves-atom}
use rhel9_app_micro.Models.{
  Task, CreateTask, UpdateTask, status_as_str, validate_create, validate_update,
}
use rhel9_app_micro.Errors.{AppError, bad_request, forbidden}
use rhel9_app_micro.Config.{Config}
use rhel9_app_micro.Platform.{Platform}
use rhel9_app_micro.Extract.{Headers, AuthUser}
use rhel9_app_micro.Db
use rhel9_app_micro.Db.Lawful.{Tables, Same, IsLawful}
use rhel9_app_micro.Db.Lawful.Rows.{AuditRow}
use rhel9_app_micro.Db.Reads.{Same-refl}
use rhel9_app_micro.Db.Outcomes.{IsEvent, Creates, Updates, Deletes, Logs}
use rhel9_app_micro.Db.Writes.{
  create_task-Creates, update_task-Updates, delete_task-Deletes, record_audit-Logs,
}
use rhel9_app_micro.Handlers.{existing_task, is_stranger}
use rhel9_app_micro.Handlers.Permission.{Finds, existing_task-Finds}
use rhel9_app_micro.Api.{Endpoint, create_task, update_task, delete_task, Reply, task, plain}
use rhel9_app_micro.Api.Effects.{Authenticates}
use rhel9_app_micro.Api.AuditLog.{Grows, extends-Grows}
use rhel9_app_micro.Api.Steps.{
  Steps, create_steps, update_rest, update_steps, delete_rest, delete_steps,
}

module _ (P : Platform) (T : Tables P) where
  -- The log has an event of this actor, with this action on this task.
  abbrev pub HasEvent : String → String → String → P.World → Type 0
  HasEvent actor action id w =
      (detail : String) × (e : AuditRow) × IsEvent P actor action "task" id detail e
      × (before : List AuditRow) × (after : List AuditRow) × (T.audits w ≡ before ++ e ∷ after)

  HasEvent-Grows :
      (actor action id : String) (v w : P.World)
      → Grows P T v w
      → HasEvent actor action id v
      → HasEvent actor action id w
  HasEvent-Grows actor action id v w (es, more) (detail, e, is, before, after, at) = (
    detail,
    e,
    is,
    before,
    after ++ es,
    more ∙ ap (λ l. l ++ es) at ∙ append_assoc before (e ∷ after) es,
  )

  -- The user that these headers authenticate has done this.
  abbrev pub HasDone : Config → Headers → String → String → P.World → Type 0
  HasDone config headers action id w =
      (user : AuthUser) × Authenticates P T config headers user × HasEvent user.username action id w

  -- The change that a reply acknowledges: its action, and the id of the task.
  abbrev pub change_of : Endpoint → Reply P.DateTime → Option (String × String)
  change_of (create_task body) (status, task t) = some ("create", t.id)
  change_of (update_task id body) (status, task t) = some ("update", t.id)
  change_of (delete_task id) (status, plain) = some ("delete", id)
  change_of endpoint reply = none

  abbrev pub Done : Config → Headers → Option (String × String) → P.World → Type 0
  Done config headers none w = Unit
  Done config headers (some (action, id)) w = HasDone config headers action id w

  -- What a reply acknowledges is in the log.
  abbrev pub Recorded : Config → Headers → Endpoint → Reply P.DateTime → P.World → Type 0
  Recorded config headers endpoint reply w = Done config headers (change_of endpoint reply) w

  pub Done-Grows :
      (config : Config) (headers : Headers) (change : Option (String × String)) (v w : P.World)
      → Grows P T v w
      → Done config headers change v
      → Done config headers change w
  Done-Grows config headers none v w r h = tt
  Done-Grows config headers (some (action, id)) v w r (user, a, has) =
      (user, a, HasEvent-Grows user.username action id v w r has)

  abbrev pub R : P.World → P.World → Type 0
  R = Grows P T

  pub unmoved : {w w' : P.World} → Same P T w w' → R w w'
  unmoved s = extends-Grows P T (inl s.audits)

  module _ (L : IsLawful P T) where
    create_task-Grows :
        (owner : String) (input : CreateTask) (w : P.World) → R w (Db.create_task P owner input w).1
    create_task-Grows owner input w = go _ (create_task-Creates P T L owner input w)
      where
        go :
            (r : Except AppError (Task P.DateTime) × P.World)
            → Creates P T owner input w r
            → R w r.1
        go (ok t, w') h = extends-Grows P T (inl h.3)
        go (err e, w') h = unmoved h.0

    update_task-Grows :
        (existing : Task P.DateTime) (input : UpdateTask) (w : P.World)
        → R w (Db.update_task P existing input w).1
    update_task-Grows existing input w = go _ (update_task-Updates P T L existing input w)
      where
        go :
            (r : Except AppError (Task P.DateTime) × P.World)
            → Updates P T existing input w r
            → R w r.1
        go (ok t, w') h = extends-Grows P T (inl h.2)
        go (err e, w') h = unmoved h.0

    delete_task-Grows : (id : String) (w : P.World) → R w (Db.delete_task P id w).1
    delete_task-Grows id w = go _ (delete_task-Deletes P T L id w)
      where
        go : (r : Except AppError Bool × P.World) → Deletes P T id w r → R w r.1
        go (ok b, w') h = extends-Grows P T (inl h.1)
        go (err e, w') h = unmoved h.0

    existing_task-Grows : (id : String) (w : P.World) → R w (existing_task P id w).1
    existing_task-Grows id w = go _ (existing_task-Finds P T L id w)
      where
        go : (r : Except AppError (Task P.DateTime) × P.World) → Finds P T id w r → R w r.1
        go (ok t, w') h = unmoved h.0
        go (err e, w') h = unmoved h.0

    -- The last call of a change, and the result that follows it.
    audit-Leaves :
        {B : Type 0} (actor action id detail : String) (b : B) (Q : B → P.World → Type 0)
        (w : P.World)
        → ((w' : P.World) → HasEvent actor action id w' → Q b w')
        → Leaves R Q
            (atom (Db.record_audit P actor action "task" id detail) >>= λ _. finish (ok b))
            w
    unfolding Leaves
    audit-Leaves actor action id detail b Q w rest =
        Leaves-atom R Q (Db.record_audit P actor action "task" id detail) (λ _. finish (ok b)) w
          (λ v. moved v _ (record_audit-Logs P T L actor action "task" id detail v))
          (λ a v w' e.
            rest w'
              (logged v w' (rw e at (record_audit-Logs P T L actor action "task" id detail v))))
      where
        moved :
            (v : P.World) (r : Except AppError Unit × P.World)
            → Logs P T actor action "task" id detail v r
            → R v r.1
        moved v (ok a, w') h = extends-Grows P T (inr (h.1.0, h.1.2))
        moved v (err e, w') h = unmoved h.0

        logged :
            (v w' : P.World)
            → Logs P T {A = Unit {0}} actor action "task" id detail v (ok tt, w')
            → HasEvent actor action id w'
        logged v w' h = (detail, h.1.0, h.1.1, T.audits v, [], h.1.2)

    -- A call that changes no table.
    pub quiet-Leaves :
        {A B : Type 0} (Q : B → P.World → Type 0) (m : Act AppError P.World A) (k : A → Steps P B)
        (w : P.World)
        → ((v : P.World) → R v (m v).1)
        → ((a : A) (w' : P.World) → Leaves R Q (k a) w')
        → Leaves R Q (atom m >>= k) w
    quiet-Leaves Q m k w moves rest = Leaves-atom R Q m k w moves (λ a v w' e. rest a w')

    -- The check of a body.
    checked-Grows :
        (v : Except String Unit) (w : P.World)
        → R w (map_err {W = P.World} bad_request (lift v) w).1
    checked-Grows (ok a) w = unmoved (Same-refl P T w)
    checked-Grows (err m) w = unmoved (Same-refl P T w)

    -- Behind the test of who may change the task that the request names.
    may-Leaves :
        {B : Type 0} (Q : B → P.World → Type 0) (user : AuthUser) (id message : String)
        (k : Task P.DateTime → Steps P B) (w : P.World)
        → ((t : Task P.DateTime) (w' : P.World) → Leaves R Q (k t) w')
        → Leaves R Q
            (atom (existing_task P id) >>= λ t.
              if is_stranger P user t then finish (err (forbidden message)) else k t)
            w
    unfolding Leaves
    may-Leaves Q user id message k w rest =
        quiet-Leaves Q (existing_task P id) _ w (existing_task-Grows id) (λ t w₁.
          elim (Bool-cases (is_stranger P user t)) [
            | inl other ↦ rw other tt
            | inr allowed ↦ rw allowed (rest t w₁)
          ])

    module _ (user : AuthUser) where
      pub create_steps-Leaves :
          (input : CreateTask) (w : P.World)
          → Leaves R (λ r. HasEvent user.username "create" r.1.id) (create_steps P user input) w
      unfolding create_steps
      create_steps-Leaves input w =
          quiet-Leaves _ (map_err bad_request (lift (validate_create input))) _ w
            (checked-Grows (validate_create input))
            (λ _ w₁.
              quiet-Leaves _ (Db.create_task P user.username input) _ w₁
                (create_task-Grows user.username input)
                (λ t w₂.
                  audit-Leaves user.username "create" t.id ("title=" <> t.title) (201, t) _ w₂
                    (λ w' h. h)))

      pub update_steps-Leaves :
          (id : String) (input : UpdateTask) (w : P.World)
          → Leaves R (λ t. HasEvent user.username "update" t.id) (update_steps P user id input) w
      unfolding update_steps update_rest
      update_steps-Leaves id input w =
          quiet-Leaves _ (map_err bad_request (lift (validate_update input))) _ w
            (checked-Grows (validate_update input))
            (λ _ w₁. may-Leaves _ user id "you may only modify your own tasks" _ w₁ (λ existing w₂.
              quiet-Leaves _ (Db.update_task P existing input) _ w₂
                (update_task-Grows existing input)
                (λ t w₃.
                  audit-Leaves user.username "update" t.id ("status=" <> status_as_str t.status) t _
                    w₃ (λ w' h. h))))

      pub delete_steps-Leaves :
          (id : String) (w : P.World)
          → Leaves R (λ _. HasEvent user.username "delete" id) (delete_steps P user id) w
      unfolding delete_steps delete_rest
      delete_steps-Leaves id w =
          may-Leaves _ user id "you may only delete your own tasks" _ w (λ existing w₁.
            quiet-Leaves _ (Db.delete_task P id) _ w₁ (delete_task-Grows id)
              (λ b w₂. audit-Leaves user.username "delete" id "" 204 _ w₂ (λ w' h. h)))
