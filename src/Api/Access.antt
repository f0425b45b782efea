-- ===== src/Api/Access.antt =====
-- Who can change a task, across any sequence of requests (src/lib.rs over src/handlers.rs).
use mathlib.Core.Option.{some-injective}
use rhel9_app_micro.Prelude.{
  String, ◌≡◌, ◌≢◌, ◌∙◌, sym, ap, inl, inr, some, List, [], ◌∷◌, false, str_eq, eq_iff, All,
  Bool-cases,
}
use rhel9_app_micro.Config.{Config}
use rhel9_app_micro.Platform.{Platform}
use rhel9_app_micro.Extract.{Headers, AuthUser, is_admin}
use rhel9_app_micro.Db.Lawful.{Tables, IsLawful}
use rhel9_app_micro.Db.Lawful.Rows.{TaskRow, find_task}
use rhel9_app_micro.Db.Outcomes.{task_row, task_patch}
use rhel9_app_micro.Observe.{Server}
use rhel9_app_micro.Handlers.{AppState}
use rhel9_app_micro.Handlers.Permission.{MayChange}
use rhel9_app_micro.Api.{Request, handle, serve}
use rhel9_app_micro.Api.Rows.{
  find_task-id, find_task-append, find_task-patch_where, find_task-remove_where,
}
use rhel9_app_micro.Api.Answers.{handle-Effect}
use rhel9_app_micro.Api.Effects.{Authenticates, Effect, quiet, created, updated, deleted}

module _ (P : Platform) (T : Tables P) (config : Config) (headers : Headers) where
  -- Whoever the headers authenticate is neither an admin nor this user.
  abbrev pub IsOutsider : String → Type 0
  IsOutsider owner =
      (user : AuthUser)
      → Authenticates P T config headers user
      → (is_admin user ≡ false) × (user.username ≢ owner)

  module _ (id : String) (r : TaskRow) (out : IsOutsider r.owner) where
    -- The row that an outsider may change is another one.
    not_own :
        (user : AuthUser) (j : String) (w : P.World)
        → Authenticates P T config headers user
        → find_task id (T.tasks w) ≡ some r
        → (x : TaskRow) × (find_task j (T.tasks w) ≡ some x) × MayChange user x
        → str_eq j id ≡ false
    not_own user j w a f (x, g, may) = elim (Bool-cases (str_eq j id)) [
      | inl same ↦
          let e : j ≡ id = (eq_iff j id).0 same in
          let it : x ≡ r = some-injective x r (sym g ∙ rw (e) f) in
          elim may [
            | inl admin ↦ cc (admin, (out user a).0)
            | inr owner ↦ absurd ((out user a).1 (sym owner ∙ ap (λ (y : TaskRow). y.owner) it))
          ]
      | inr other ↦ other
    ]

    Effect-keeps :
        {w w' : P.World}
        → Effect P T config headers w w'
        → find_task id (T.tasks w) ≡ some r
        → find_task id (T.tasks w') ≡ some r
    Effect-keeps (quiet s) f = rw s.tasks f
    Effect-keeps {w} (created user input t a st x) f =
        rw (st.3) (find_task-append id (task_row P t) (T.tasks w) ∙ rw f)
    Effect-keeps {w} (updated user j input t a v ((y, g, may, made), e) x) f = rw e (
        find_task-patch_where id t.id (task_patch P t) (T.tasks w)
        ∙ rw (made.id, find_task-id j y (T.tasks w) g, not_own user j w a f (y, g, may)) f)
    Effect-keeps {w} (deleted user j a ((y, g, may), e) x) f =
        rw e (find_task-remove_where id j (T.tasks w) ∙ rw (not_own user j w a f (y, g, may)) f)

module _ (P : Platform) (T : Tables P) (L : IsLawful P T) (state : AppState) where
  -- Over a lawful database, a stored task is unchanged by any sequence of requests none of which authenticates an admin or
  -- the task's owner.
  pub serve-keeps :
      (id : String) (r : TaskRow) (reqs : List Request) (s : Server P)
      → All (λ (req : Request). IsOutsider P T state.config req.headers r.owner) reqs
      → find_task id (T.tasks s.world) ≡ some r
      → find_task id (T.tasks (serve P state reqs s).world) ≡ some r
  unfolding serve
  serve-keeps id r [] s outs f = f
  serve-keeps id r (req ∷ reqs) s outs f = serve-keeps id r reqs (handle P state req s).1 outs.1 (
      Effect-keeps P T state.config req.headers id r outs.0
        (handle-Effect P T L state req.headers req.endpoint s) f)
