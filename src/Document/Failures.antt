-- ===== src/Document/Failures.antt =====
-- The statuses of the errors that each call can end with (src/extract.rs, src/handlers.rs and
-- src/db.rs, with src/error.rs).
use rhel9_app_micro.Prelude.{
  ℕ, String, inl, inr, Bool-cases, Option, none, some, List, [], ◌∷◌, map, ltb,
}
use rhel9_app_micro.Prelude.Int.{ℤ}
use rhel9_app_micro.Outcome.{
  Except, ok, err, Act, pure, ok_or, map_err, ◌>>=◌, bind-ensures, map_err-ensures,
}
use rhel9_app_micro.Models.{Task, CreateTask, UpdateTask, is_admin_role}
use rhel9_app_micro.Errors.{AppError, parts, not_found, from_rusqlite, from_r2d2}
use rhel9_app_micro.Config.{Config}
use rhel9_app_micro.Platform.{Platform, text, integer}
use rhel9_app_micro.Extract.{Headers, AuthUser, auth_user, admin_user}
use rhel9_app_micro.Observe.Keys.{Keyed, auth_user-Keyed}
use rhel9_app_micro.Db
use rhel9_app_micro.Db.{
  get_conn, sql, Sql, collect, row_to_task, row_to_event, next_task, list_tasks_sql, get_task_sql,
  insert_task_sql, update_task_sql, delete_task_sql, insert_audit_sql, audit_query,
}
use rhel9_app_micro.Handlers.{existing_task}
use rhel9_app_micro.Document.Routes.{OneOf}

abbrev pub ErrorIn : List ℕ → {A : Type 0} → Except AppError A → Type 0
ErrorIn ss (ok a) = Unit
ErrorIn ss (err e) = OneOf (parts e).0 ss

module _ {W : Type 0} (ss : List ℕ) where
  -- An error has one of these statuses.
  pub record FailsWith {A : Type 0} (r : Except AppError A × W) : Type 0 where
    pub status : ErrorIn ss r.0

  pub bind-FailsWith :
      {A B : Type 0} (m : Act AppError W A) (f : A → Act AppError W B) (w : W)
      → FailsWith (m w)
      → ((a : A) (w' : W) → FailsWith (f a w'))
      → FailsWith ((m >>= f) w)
  bind-FailsWith m f w h k =
      bind-ensures m f w FailsWith FailsWith h (λ a w' _. k a w')
        (λ e w' q. record { status = q.status })

  pub map_err-FailsWith :
      {E A : Type 0} (f : E → AppError) (m : Act E W A) (w : W)
      → ((e : E) → OneOf (parts (f e)).0 ss)
      → FailsWith (map_err f m w)
  map_err-FailsWith f m w h =
      map_err-ensures f m w (λ _. Unit) FailsWith tt (λ a w' _. record { status = tt })
        (λ e w' _. record { status = h e })

  pub ok_or-FailsWith :
      {A : Type 0} (o : Option A) (e : AppError) (w : W)
      → OneOf (parts e).0 ss
      → FailsWith (ok_or o e w)
  ok_or-FailsWith none e w h = record { status = h }
  ok_or-FailsWith (some a) e w h = record { status = tt }

module _ (P : Platform) (ss : List ℕ) where
  pub auth_user-FailsWith :
      (config : Config) (headers : Headers) (w : P.World)
      → OneOf 401 ss
      → FailsWith ss (auth_user P config headers w)
  unfolding parts
  auth_user-FailsWith config headers w h =
      go (auth_user P config headers w) (auth_user-Keyed P config headers w)
    where
      go : (r : Except AppError AuthUser × P.World) → Keyed P config headers w r → FailsWith ss r
      go (ok user, w') k = record { status = tt }
      go (err e, w') ((m, is), k) = record { status = rw is h }

  pub admin_user-FailsWith :
      (config : Config) (headers : Headers) (w : P.World)
      → OneOf 401 ss
      → OneOf 403 ss
      → FailsWith ss (admin_user P config headers w)
  unfolding admin_user parts
  admin_user-FailsWith config headers w h k =
      bind-FailsWith ss (auth_user P config headers) _ w (auth_user-FailsWith config headers w h)
        (λ user w'. elim (Bool-cases (is_admin_role user.role)) [
          | inl admin ↦ rw admin (record { status = tt })
          | inr plain ↦ rw plain (record { status = k })
        ])

  -- What asks the database can fail with 500.
  module _ (h : OneOf 500 ss) where
    get_conn-FailsWith : (w : P.World) → FailsWith ss (get_conn P w)
    unfolding get_conn from_r2d2 parts
    get_conn-FailsWith w = map_err-FailsWith ss from_r2d2 P.pool_get w (λ e. h)

    sql-FailsWith : {A : Type 0} (m : Sql P A) (w : P.World) → FailsWith ss (sql P m w)
    unfolding from_rusqlite parts
    sql-FailsWith m w = map_err-FailsWith ss from_rusqlite m w (λ e. h)

    -- A connection, a statement, and what is made of its result.
    statement-FailsWith :
        {A B : Type 0} (m : Sql P A) (f : A → Act AppError P.World B) (w : P.World)
        → ((a : A) (w' : P.World) → FailsWith ss (f a w'))
        → FailsWith ss ((get_conn P >>= λ _. sql P m >>= f) w)
    statement-FailsWith m f w k =
        bind-FailsWith ss (get_conn P) _ w (get_conn-FailsWith w)
          (λ _ w'. bind-FailsWith ss (sql P m) f w' (sql-FailsWith m w') k)

    pub list_tasks-FailsWith :
        (limit offset : ℤ) (w : P.World) → FailsWith ss (Db.list_tasks P limit offset w)
    unfolding Db.list_tasks
    list_tasks-FailsWith limit offset w =
        statement-FailsWith (P.query list_tasks_sql (integer limit ∷ integer offset ∷ []))
          (λ rows. sql P (collect P (row_to_task P) rows)) w
          (λ rows w'. sql-FailsWith (collect P (row_to_task P) rows) w')

    get_task-FailsWith : (id : String) (w : P.World) → FailsWith ss (Db.get_task P id w)
    unfolding Db.get_task
    get_task-FailsWith id w =
        statement-FailsWith (P.query get_task_sql (text id ∷ [])) (λ rows. sql P (next_task P rows))
          w (λ rows w'. sql-FailsWith (next_task P rows) w')

    -- A change, and a result that cannot fail.
    change-FailsWith :
        {A B : Type 0} (m : Sql P A) (f : A → B) (w : P.World)
        → FailsWith ss ((get_conn P >>= λ _. sql P m >>= λ a. pure (f a)) w)
    change-FailsWith m f w =
        statement-FailsWith m (λ a. pure (f a)) w (λ a w'. record { status = tt })

    pub create_task-FailsWith :
        (owner : String) (input : CreateTask) (w : P.World)
        → FailsWith ss (Db.create_task P owner input w)
    unfolding Db.create_task
    create_task-FailsWith owner input w = change-FailsWith (P.execute insert_task_sql _) (λ n. _) _

    pub update_task-FailsWith :
        (existing : Task P.DateTime) (input : UpdateTask) (w : P.World)
        → FailsWith ss (Db.update_task P existing input w)
    unfolding Db.update_task
    update_task-FailsWith existing input w =
        change-FailsWith (P.execute update_task_sql _) (λ n. _) _

    pub delete_task-FailsWith : (id : String) (w : P.World) → FailsWith ss (Db.delete_task P id w)
    unfolding Db.delete_task
    delete_task-FailsWith id w =
        change-FailsWith (P.execute delete_task_sql (text id ∷ [])) (λ n. ltb 0 n) w

    pub record_audit-FailsWith :
        (actor action entity_type entity_id detail : String) (w : P.World)
        → FailsWith ss (Db.record_audit P actor action entity_type entity_id detail w)
    unfolding Db.record_audit
    record_audit-FailsWith actor action entity_type entity_id detail w =
        bind-FailsWith ss (get_conn P) _ w (get_conn-FailsWith w) (λ _ w'.
          bind-FailsWith ss (sql P (P.execute insert_audit_sql _)) _ _
            (sql-FailsWith (P.execute insert_audit_sql _) _) (λ n w''. record { status = tt }))

    pub list_audit-FailsWith :
        (actor action : Option String) (limit : ℤ) (w : P.World)
        → FailsWith ss (Db.list_audit P actor action limit w)
    unfolding Db.list_audit
    list_audit-FailsWith actor action limit w =
        let (statement, binds) = audit_query actor action limit in
        statement-FailsWith (P.query statement (map text binds))
          (λ rows. sql P (collect P (row_to_event P) rows)) w
          (λ rows w'. sql-FailsWith (collect P (row_to_event P) rows) w')

    pub existing_task-FailsWith :
        (id : String) (w : P.World) → OneOf 404 ss → FailsWith ss (existing_task P id w)
    unfolding existing_task parts
    existing_task-FailsWith id w k =
        bind-FailsWith ss (Db.get_task P id) _ w (get_task-FailsWith id w)
          (λ found w'. ok_or-FailsWith ss found (not_found "task not found") w' k)
