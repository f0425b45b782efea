-- ===== src/Api/Concurrent/Access.antt =====
-- Who can change a task, where requests are served together (src/lib.rs over src/handlers.rs).
use mathlib.Core.Option.{some-injective}
use rhel9_app_micro.Prelude.{
  ℕ, String, ◌≡◌, ◌∙◌, sym, ap, inl, inr, some, List, false, arith, str_eq, eq_iff, All, All-weaken,
  Bool-cases, map,
}
use rhel9_app_micro.Process.{interleave}
use rhel9_app_micro.Models.{Task}
use rhel9_app_micro.Config.{Config}
use rhel9_app_micro.Platform.{Platform}
use rhel9_app_micro.Extract.{Headers, AuthUser, is_admin}
use rhel9_app_micro.Observe.{Server}
use rhel9_app_micro.Db.{patched}
use rhel9_app_micro.Db.Lawful.{Tables, IsLawful}
use rhel9_app_micro.Db.Lawful.Rows.{TaskRow, find_task}
use rhel9_app_micro.Db.Outcomes.{task_row, task_patch}
use rhel9_app_micro.Handlers.{AppState, is_stranger}
use rhel9_app_micro.Handlers.Permission.{Named}
use rhel9_app_micro.Api.{Request}
use rhel9_app_micro.Api.Rows.{
  find_task-id, find_task-append, find_task-patch_where, find_task-remove_where,
}
use rhel9_app_micro.Api.Effects.{Authenticates}
use rhel9_app_micro.Api.Access.{IsOutsider}
use rhel9_app_micro.Api.Steps.{handle_steps}
use rhel9_app_micro.Api.Concurrent.{IsStable}
use rhel9_app_micro.Api.Concurrent.Served.{requests-keep}

-- The row under the id is this one.
abbrev pub Stands : (P : Platform) → Tables P → String → TaskRow → P.World → Type 0
Stands P T id r w = find_task id (T.tasks w) ≡ some r

-- A task that was read under `j` has that id, and if `j` is the row's id, the row's owner.
abbrev pub Read : (P : Platform) → String → TaskRow → String → Task P.DateTime → Type 0
Read P id r j t = (t.id ≡ j) × (j ≡ id → t.owner ≡ r.owner)

module _ (P : Platform) (T : Tables P) (id : String) (r : TaskRow) where
  Named-Read :
      (j : String) (t : Task P.DateTime) (w : P.World)
      → Named P T j w t
      → Stands P T id r w
      → Read P id r j t
  Named-Read j t w (x, g, d) stands = (
    d.id ∙ find_task-id j x (T.tasks w) g,
    λ same.
        let it : x ≡ r = some-injective x r (sym g ∙ rw same stands) in
        d.owner ∙ ap (λ (y : TaskRow). y.owner) it,
  )

module _ (P : Platform) (T : Tables P) (config : Config) (headers : Headers) (id : String)
    (r : TaskRow) (out : IsOutsider P T config headers r.owner) where
  -- The task that an outsider may change is another one.
  not_this :
      (user : AuthUser) (j : String) (t : Task P.DateTime)
      → Authenticates P T config headers user
      → Read P id r j t
      → is_stranger P user t ≡ false
      → str_eq j id ≡ false
  unfolding is_stranger
  not_this user j t a k p = elim (Bool-cases (str_eq j id)) [
    | inl same ↦
        let own : t.owner ≡ r.owner = k.1 ((eq_iff j id).0 same) in
        let plain : is_admin user ≡ false = (out user a).0 in
        let mine : t.owner ≡ user.username = (eq_iff t.owner user.username).0 (ground arith) in
        absurd ((out user a).1 (sym mine ∙ own))
    | inr other ↦ other
  ]

  pub outsider-IsStable : IsStable P T config headers (Stands P T id r) (Read P id r)
  outsider-IsStable = record {
    quiet = λ w w' s f. rw s.tasks f;
    logged = λ e w w' rows log f. rw rows f;
    found = Named-Read P T id r;
    created = λ user input t w w' a v n fresh rows log f.
        rw rows (find_task-append id (task_row P t) (T.tasks w) ∙ rw f);
    updated = λ user j existing input now w w' a v k p rows log f. rw rows (
        find_task-patch_where id existing.id (task_patch P (patched P existing input now))
          (T.tasks w)
        ∙ rw (k.0, not_this user j existing a k p) f);
    deleted = λ user j existing w w' a k p rows log f.
        rw rows (find_task-remove_where id j (T.tasks w) ∙ rw (not_this user j existing a k p) f);
  }

module _ (P : Platform) (T : Tables P) (L : IsLawful P T) (state : AppState) where
  -- Over a lawful database, a stored task is unchanged by any requests none of which authenticates
  -- an admin or the task's owner, in whatever order their steps follow one another.
  pub requests-keep_task :
      (id : String) (r : TaskRow) (reqs : List Request) (schedule : List ℕ) (s : Server P)
      → All (λ (req : Request). IsOutsider P T state.config req.headers r.owner) reqs
      → find_task id (T.tasks s.world) ≡ some r
      → find_task id (T.tasks (interleave schedule (map (handle_steps P state) reqs) s).1.world)
        ≡ some r
  requests-keep_task id r reqs schedule s outs stands =
      requests-keep P T L state (Stands P T id r) (Read P id r) reqs schedule s
        (All-weaken (λ (req : Request). IsOutsider P T state.config req.headers r.owner) _
          (λ req out. outsider-IsStable P T state.config req.headers id r out) reqs outs)
        stands
