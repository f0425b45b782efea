-- ===== src/Handlers/Permission.antt =====
-- Finding the task that a request names, and the test of who may change it
-- (src/handlers.rs, `update_task` and `delete_task`).
use rhel9_app_micro.Prelude.{
  String, ◌≡◌, ◌≢◌, refl, ◌∙◌, sym, ◌⊎◌, inl, inr, true, false, none, some, arith, eq_iff,
  Bool-cases,
}
use rhel9_app_micro.Outcome.{Except, ok, err, bind-ensures}
use rhel9_app_micro.Models.{Task}
use rhel9_app_micro.Errors.{AppError, not_found, forbidden, IsInternal}
use rhel9_app_micro.Platform.{Platform}
use rhel9_app_micro.Extract.{AuthUser, is_admin}
use rhel9_app_micro.Db
use rhel9_app_micro.Db.Lawful.{Tables, Same, IsLawful}
use rhel9_app_micro.Db.Lawful.Rows.{TaskRow, find_task}
use rhel9_app_micro.Db.Reads.{Decodes, ReadsTask, get_task-ReadsTask}
use rhel9_app_micro.Handlers.{existing_task, is_stranger}

-- The caller is an admin, or owns the row.
abbrev pub MayChange : AuthUser → TaskRow → Type 0
MayChange user r = (is_admin user ≡ true) ⊎ (r.owner ≡ user.username)

module _ (P : Platform) where
  pub may_change :
      (user : AuthUser) (r : TaskRow) (t : Task P.DateTime)
      → Decodes P r t
      → is_stranger P user t ≡ false
      → MayChange user r
  unfolding is_stranger
  may_change user r t d h = elim (Bool-cases (is_admin user)) [
    | inl admin ↦ inl admin
    | inr plain ↦ inr (sym d.owner ∙ (eq_iff t.owner user.username).0 (ground arith))
  ]

  pub stranger_plain :
      (user : AuthUser) (r : TaskRow) (t : Task P.DateTime)
      → Decodes P r t
      → is_stranger P user t ≡ true
      → (is_admin user ≡ false) × (r.owner ≢ user.username)
  unfolding is_stranger
  stranger_plain user r t d h = (
    ground arith,
    λ same. let e = (eq_iff t.owner user.username).1 (d.owner ∙ same) in ground arith,
  )

module _ (P : Platform) (T : Tables P) where
  -- The row that the request names is there, and the task is the one read from it.
  abbrev pub Named : String → P.World → Task P.DateTime → Type 0
  Named id w t = (r : TaskRow) × (find_task id (T.tasks w) ≡ some r) × Decodes P r t

  abbrev pub Finds : String → P.World → Except AppError (Task P.DateTime) × P.World → Type 0
  Finds id w (ok t, w') = Same P T w w' × Named id w t
  Finds id w (err e, w') =
      Same P T w w'
      × (((find_task id (T.tasks w) ≡ none) × (e ≡ not_found "task not found")) ⊎ IsInternal e)

  -- Why a request for a change is turned down, with no table changed.
  pub data Refusal (user : AuthUser) (id message : String) (w w' : P.World) (e : AppError)
      : Type 0 where
    absent :
        Same P T w w'
        → find_task id (T.tasks w) ≡ none
        → e ≡ not_found "task not found"
        → Refusal user id message w w' e
    stranger :
        (r : TaskRow)
        → Same P T w w'
        → find_task id (T.tasks w) ≡ some r
        → is_admin user ≡ false
        → r.owner ≢ user.username
        → e ≡ forbidden message
        → Refusal user id message w w' e
    broken : Same P T w w' → IsInternal e → Refusal user id message w w' e

  pub Finds-Refusal :
      {user : AuthUser} {id message : String} {w w' : P.World} {e : AppError}
      → Finds id w (err e, w')
      → Refusal user id message w w' e
  Finds-Refusal (s, inl (gone, is)) = absent s gone is
  Finds-Refusal (s, inr internal) = broken s internal

  module _ (L : IsLawful P T) where
    -- The task is found as it is stored; 404 is returned only if no row has the id, and any other
    -- error is internal. Nothing is written.
    pub existing_task-Finds : (id : String) (w : P.World) → Finds id w (existing_task P id w)
    unfolding existing_task
    existing_task-Finds id w =
        bind-ensures (Db.get_task P id) _ w (ReadsTask P T id w) (Finds id w)
          (get_task-ReadsTask P T L id w)
          (elim [ none ↦ λ w₁ h₁. (h₁.0, inl (h₁.1, refl)) | some t ↦ λ w₁ h₁. h₁ ])
          (λ e w₁ h₁. (h₁.0, inr h₁.1))
