-- ===== src/Ledger/Located.antt =====
-- Finding a task where the database is up (src/handlers.rs): it is found as it is stored, or there
-- is none.
use rhel9_app_micro.Prelude.{
  String, ◌≡◌, refl, inl, inr, true, false, none, some, arith, eq_iff, if◌then◌else◌, Bool-cases,
}
use rhel9_app_micro.Outcome.{Except, ok, err, Act, raise, ◌>>=◌, IsOk, bind-ensures}
use rhel9_app_micro.Models.{Task, UpdateTask, validate_update}
use rhel9_app_micro.Errors.{AppError, bad_request, not_found, forbidden}
use rhel9_app_micro.Platform.{Platform}
use rhel9_app_micro.Extract.{AuthUser, is_admin}
use rhel9_app_micro.Db
use rhel9_app_micro.Db.Lawful.{Tables, Same, IsLawful}
use rhel9_app_micro.Db.Lawful.Rows.{TaskRow, find_task}
use rhel9_app_micro.Db.Reads.{Decodes, ReadsTask, get_task-ReadsTask}
use rhel9_app_micro.Db.Available.{IsReadable, get_task-IsOk}
use rhel9_app_micro.Handlers.{existing_task, is_stranger, update_task, delete_task}
use rhel9_app_micro.Handlers.Permission.{Named, MayChange}
use rhel9_app_micro.Ledger.{modify_own, delete_own, may}
use rhel9_app_micro.Ledger.View.{entry}

module _ (P : Platform) where
  is_stranger-eq_may :
      (user : AuthUser) (r : TaskRow) (t : Task P.DateTime)
      → Decodes P r t
      → may user (entry r) ≡ false
      → is_stranger P user t ≡ true
  unfolding is_stranger may
  is_stranger-eq_may user r t d h = rw (d.owner) (ground arith)

pub may-MayChange : (user : AuthUser) (r : TaskRow) → may user (entry r) ≡ true → MayChange user r
unfolding may
may-MayChange user r h = elim (Bool-cases (is_admin user)) [
  | inl admin ↦ inl admin
  | inr plain ↦ inr ((eq_iff r.owner user.username).0 (ground arith))
]

module _ (P : Platform) (T : Tables P) (L : IsLawful P T) (A : IsReadable P T) where
  -- What `existing_task` gives: the row's task, or 404 where there is no row; no table changes.
  abbrev pub Located : String → P.World → Except AppError (Task P.DateTime) × P.World → Type 0
  Located id w (ok t, w') = Same P T w w' × Named P T id w t
  Located id w (err e, w') =
      Same P T w w' × (find_task id (T.tasks w) ≡ none) × (e ≡ not_found "task not found")

  pub existing_task-Located : (id : String) (w : P.World) → Located id w (existing_task P id w)
  unfolding existing_task
  existing_task-Located id w =
      bind-ensures (Db.get_task P id) _ w (λ x. ReadsTask P T id w x × IsOk x.0) (Located id w)
        (get_task-ReadsTask P T L id w, get_task-IsOk P T A id w)
        (elim [ none ↦ λ w₁ h. (h.0.0, h.0.1, refl) | some t ↦ λ w₁ h. h.0 ]) (λ e w₁ h. absurd h.1)

  -- The computation ends in this error, and changes no table.
  abbrev pub StopsWith : {B : Type 0} → AppError → P.World → Except AppError B × P.World → Type 0
  StopsWith e w (ok b, w') = ⊥
  StopsWith e w (err e', w') = Same P T w w' × (e' ≡ e)

  module _ {B : Type 0} (id : String) (w : P.World) where
    pub absent-StopsWith :
        (k : Task P.DateTime → Act AppError P.World B)
        → find_task id (T.tasks w) ≡ none
        → StopsWith (not_found "task not found") w ((existing_task P id >>= k) w)
    absent-StopsWith k none_there =
        bind-ensures (existing_task P id) k w (Located id w)
          (StopsWith (not_found "task not found") w) (existing_task-Located id w)
          (λ t w₁ (s, (r, f, d)). cc (f, none_there)) (λ e w₁ h. (h.0, h.2))

    pub stranger-StopsWith :
        (user : AuthUser) (r : TaskRow) (message : String)
        (k : Task P.DateTime → Act AppError P.World B)
        → find_task id (T.tasks w) ≡ some r
        → may user (entry r) ≡ false
        → StopsWith (forbidden message) w (
            (existing_task P id >>= λ existing.
            if is_stranger P user existing then raise (forbidden message) else k existing)
              w)
    stranger-StopsWith user r message k there not_may =
        bind-ensures (existing_task P id) _ w (Located id w) (StopsWith (forbidden message) w)
          (existing_task-Located id w)
          (λ t w₁ (s, (x, f, d)).
            let same : r ≡ x = cc (there, f) in
            rw (is_stranger-eq_may P user x t d (rw same at not_may)) (s, refl))
          (λ e w₁ h. cc (h.1, there))

  -- The changes of a task that end early.
  module _ (user : AuthUser) (id : String) (input : UpdateTask) (w : P.World) where
    pub update_invalid :
        (m : String)
        → validate_update input ≡ err m
        → StopsWith (bad_request m) w (update_task P user id input w)
    unfolding update_task
    update_invalid m v = rw v (record { tasks = refl; audits = refl }, refl)

    pub update_absent :
        validate_update input ≡ ok tt
        → find_task id (T.tasks w) ≡ none
        → StopsWith (not_found "task not found") w (update_task P user id input w)
    unfolding update_task
    update_absent v f = rw v (absent-StopsWith id w _ f)

    pub update_stranger :
        (r : TaskRow)
        → validate_update input ≡ ok tt
        → find_task id (T.tasks w) ≡ some r
        → may user (entry r) ≡ false
        → StopsWith (forbidden modify_own) w (update_task P user id input w)
    unfolding update_task
    update_stranger r v f not_may = rw v (stranger-StopsWith id w user r modify_own _ f not_may)

  module _ (user : AuthUser) (id : String) (w : P.World) where
    pub delete_absent :
        find_task id (T.tasks w) ≡ none
        → StopsWith (not_found "task not found") w (delete_task P user id w)
    unfolding delete_task
    delete_absent f = absent-StopsWith id w _ f

    pub delete_stranger :
        (r : TaskRow)
        → find_task id (T.tasks w) ≡ some r
        → may user (entry r) ≡ false
        → StopsWith (forbidden delete_own) w (delete_task P user id w)
    unfolding delete_task
    delete_stranger r f not_may = stranger-StopsWith id w user r delete_own _ f not_may
