-- ===== src/Document/Statuses.antt =====
-- The statuses of what the handlers return, errors included (src/handlers.rs with src/error.rs).
use rhel9_app_micro.Prelude.{ℕ, String, inl, inr, Bool-cases, List}
use rhel9_app_micro.Outcome.{Except, ok, err, Act, lift, pure, ok_or, map_err, ◌>>=◌, bind-ensures}
use rhel9_app_micro.HashMap.{lookup}
use rhel9_app_micro.Models.{CreateTask, UpdateTask, LoginRequest, validate_create, validate_update}
use rhel9_app_micro.Errors.{AppError, parts, bad_request, unauthorized}
use rhel9_app_micro.Platform.{Platform}
use rhel9_app_micro.Auth.{verify_password, issue_token}
use rhel9_app_micro.Extract.{AuthUser}
use rhel9_app_micro.Db
use rhel9_app_micro.Db.{App}
use rhel9_app_micro.Handlers
use rhel9_app_micro.Handlers.{AppState, existing_task, is_stranger}
use rhel9_app_micro.Api.{Reply, Body}
use rhel9_app_micro.Document.Routes.{OneOf}
use rhel9_app_micro.Document.Failures.{
  FailsWith, bind-FailsWith, map_err-FailsWith, ok_or-FailsWith, create_task-FailsWith,
  update_task-FailsWith, delete_task-FailsWith, record_audit-FailsWith, existing_task-FailsWith,
}

abbrev pub ResultIn : List ℕ → {A : Type 0} → (A → ℕ) → Except AppError A → Type 0
ResultIn ss status (ok a) = OneOf (status a) ss
ResultIn ss status (err e) = OneOf (parts e).0 ss

module _ {W : Type 0} (ss : List ℕ) where
  -- The status of the result, which `status` tells, or of the error is one of these.
  pub record StatusIn {A : Type 0} (status : A → ℕ) (r : Except AppError A × W) : Type 0 where
    pub answered : ResultIn ss status r.0

  pub then-StatusIn :
      {A B : Type 0} (m : Act AppError W A) (f : A → Act AppError W B) (status : B → ℕ) (w : W)
      → FailsWith ss (m w)
      → ((a : A) (w' : W) → StatusIn status (f a w'))
      → StatusIn status ((m >>= f) w)
  then-StatusIn m f status w h k =
      bind-ensures m f w (FailsWith ss) (StatusIn status) h (λ a w' _. k a w')
        (λ e w' q. record { answered = q.status })

  pub bind-StatusIn :
      {A B : Type 0} (m : Act AppError W A) (f : A → Act AppError W B) (before : A → ℕ)
      (status : B → ℕ) (w : W)
      → StatusIn before (m w)
      → ((a : A) (w' : W) → OneOf (before a) ss → StatusIn status (f a w'))
      → StatusIn status ((m >>= f) w)
  bind-StatusIn m f before status w h k =
      bind-ensures m f w (StatusIn before) (StatusIn status) h (λ a w' q. k a w' q.answered)
        (λ e w' q. record { answered = q.answered })

module _ (P : Platform) where
  module _ (ss : List ℕ) (h : OneOf 500 ss) where
    pub login-FailsWith :
        (state : AppState) (req : LoginRequest) (w : P.World)
        → OneOf 401 ss
        → FailsWith ss (Handlers.login P state req w)
    unfolding Handlers.login issue_token parts
    login-FailsWith state req w k =
        bind-FailsWith ss
          (ok_or (lookup req.username state.users) (unauthorized "invalid credentials")) _ w
          (ok_or-FailsWith ss (lookup req.username state.users) (unauthorized "invalid credentials")
            w k)
          (λ user w'. elim (Bool-cases (verify_password P req.password user.password_hash)) [
            | inl right ↦ rw right (
                bind-FailsWith ss (issue_token P state.config.jwt_secret user.username user.role) _
                  w'
                  (map_err-FailsWith ss _ (lift (P.jwt_encode _ state.config.jwt_secret)) _
                    (λ e. h))
                  (λ token w''. record { status = tt }))
            | inr wrong ↦ rw wrong (record { status = k })
          ])

    pub create_task-StatusIn :
        (user : AuthUser) (input : CreateTask) (w : P.World)
        → OneOf 201 ss
        → OneOf 400 ss
        → StatusIn ss (λ r. r.0) (Handlers.create_task P user input w)
    unfolding Handlers.create_task parts
    create_task-StatusIn user input w done k =
        then-StatusIn ss (map_err bad_request (lift (validate_create input))) _ (λ r. r.0) w
          (map_err-FailsWith ss bad_request (lift (validate_create input)) w (λ e. k))
          (λ _ w₁.
            then-StatusIn ss (Db.create_task P user.username input) _ (λ r. r.0) w₁
              (create_task-FailsWith P ss h user.username input w₁)
              (λ t w₂.
                then-StatusIn ss (Db.record_audit P user.username "create" "task" t.id _) _
                  (λ r. r.0) w₂
                  (record_audit-FailsWith P ss h user.username "create" "task" t.id _ w₂)
                  (λ _ w₃. record { answered = done })))

    pub update_task_lem :
        (user : AuthUser) (id : String) (input : UpdateTask) (w : P.World)
        → OneOf 400 ss
        → OneOf 403 ss
        → OneOf 404 ss
        → FailsWith ss (Handlers.update_task P user id input w)
    unfolding Handlers.update_task parts
    update_task_lem user id input w k k₃ k₄ =
        bind-FailsWith ss (map_err bad_request (lift (validate_update input))) _ w
          (map_err-FailsWith ss bad_request (lift (validate_update input)) w (λ e. k))
          (λ _ w₁.
            bind-FailsWith ss (existing_task P id) _ w₁ (existing_task-FailsWith P ss h id w₁ k₄)
              (λ existing w₂. elim (Bool-cases (is_stranger P user existing)) [
                | inl stranger ↦ rw stranger (record { status = k₃ })
                | inr allowed ↦ rw allowed (
                    bind-FailsWith ss (Db.update_task P existing input) _ w₂
                      (update_task-FailsWith P ss h existing input w₂)
                      (λ t w₃.
                        bind-FailsWith ss (Db.record_audit P user.username "update" "task" t.id _) _
                          w₃ (record_audit-FailsWith P ss h user.username "update" "task" t.id _ w₃)
                          (λ _ w₄. record { status = tt })))
              ]))

    pub delete_task-StatusIn :
        (user : AuthUser) (id : String) (w : P.World)
        → OneOf 204 ss
        → OneOf 403 ss
        → OneOf 404 ss
        → StatusIn ss (λ n. n) (Handlers.delete_task P user id w)
    unfolding Handlers.delete_task parts
    delete_task-StatusIn user id w done k₃ k₄ =
        then-StatusIn ss (existing_task P id) _ (λ n. n) w (existing_task-FailsWith P ss h id w k₄)
          (λ existing w₁. elim (Bool-cases (is_stranger P user existing)) [
            | inl stranger ↦ rw stranger (record { answered = k₃ })
            | inr allowed ↦ rw allowed (
                then-StatusIn ss (Db.delete_task P id) _ (λ n. n) w₁
                  (delete_task-FailsWith P ss h id w₁)
                  (λ _ w₂.
                    then-StatusIn ss (Db.record_audit P user.username "delete" "task" id "") _
                      (λ n. n) w₂
                      (record_audit-FailsWith P ss h user.username "delete" "task" id "" w₂)
                      (λ _ w₃. record { answered = done })))
          ])

  -- What a route answers: a constant status behind a step.
  pub reply-StatusIn :
      (ss : List ℕ) {A : Type 0} (m : App P A) (status : ℕ) (body : A → Body P.DateTime)
      (w : P.World)
      → FailsWith ss (m w)
      → OneOf status ss
      → StatusIn ss (λ (r : Reply P.DateTime). r.0) ((m >>= λ a. pure (status, body a)) w)
  reply-StatusIn ss m status body w h k =
      then-StatusIn ss m _ (λ r. r.0) w h (λ a w'. record { answered = k })
