-- ===== src/Api/Concurrent/Valid.antt =====
-- Every stored task is valid, where requests are served together (src/lib.rs over src/models.rs).
use rhel9_app_micro.Prelude.{ℕ, String, ◌≡◌, refl, List, [], ◌∷◌, All-append, All-everywhere, map}
use rhel9_app_micro.Outcome.{ok}
use rhel9_app_micro.Process.{interleave}
use rhel9_app_micro.Text.Trim.{IsTrimmed}
use rhel9_app_micro.Models.{Task, UpdateTask, validate_update}
use rhel9_app_micro.Models.Limits.{TitleFits, DescriptionFits}
use rhel9_app_micro.Models.Names.{status_from_str-status_as_str}
use rhel9_app_micro.Config.{Config}
use rhel9_app_micro.Platform.{Platform}
use rhel9_app_micro.Extract.{Headers}
use rhel9_app_micro.Observe.{Server}
use rhel9_app_micro.Db.{patched}
use rhel9_app_micro.Db.Lawful.{Tables, IsLawful}
use rhel9_app_micro.Db.Lawful.Rows.{TaskRow, patch_row}
use rhel9_app_micro.Db.Outcomes.{task_row, task_patch}
use rhel9_app_micro.Handlers.{AppState}
use rhel9_app_micro.Handlers.Update.{IsPatched}
use rhel9_app_micro.Handlers.Permission.{Named}
use rhel9_app_micro.Api.{Request}
use rhel9_app_micro.Api.Rows.{
  UniqueIds-append, UniqueIds-patch_where, UniqueIds-remove_where, All-patch_where,
  All-remove_where,
}
use rhel9_app_micro.Api.Valid.{RowFits, IsValid, RowFits-find, task_row-RowFits, patch_row-RowFits}
use rhel9_app_micro.Api.Steps.{handle_steps}
use rhel9_app_micro.Api.Concurrent.{IsStable}
use rhel9_app_micro.Api.Concurrent.Served.{requests-keep}

module _ (P : Platform) (T : Tables P) where
  -- A task as it may be kept while others run: its texts are within the limits.
  pub record TaskFits (id : String) (t : Task P.DateTime) : Type 0 where
    pub title : TitleFits t.title
    pub trimmed : IsTrimmed t.title
    pub description : DescriptionFits t.description

  Named-TaskFits :
      (id : String) (t : Task P.DateTime) (w : P.World)
      → Named P T id w t
      → IsValid (T.tasks w)
      → TaskFits id t
  Named-TaskFits id t w (r, f, d) h =
      let fits = RowFits-find id r (T.tasks w) h.0 f in
      record {
        title = rw d.title fits.title;
        trimmed = rw d.title fits.trimmed;
        description = rw d.description fits.description;
      }

  -- A stale task patches a row as a fresh one would, as far as validity goes.
  patched-RowFits :
      (id : String) (existing : Task P.DateTime) (input : UpdateTask) (now : P.DateTime)
      (x : TaskRow)
      → validate_update input ≡ ok tt
      → TaskFits id existing
      → RowFits (patch_row (task_patch P (patched P existing input now)) x)
  patched-RowFits id existing input now x v k =
      let from : IsPatched P (task_row P existing) input (patched P existing input now) = record {
        id = refl;
        owner = refl;
        title = refl;
        description = refl;
        status = rw (status_from_str-status_as_str existing.status) refl;
      } in
      patch_row-RowFits P input (patched P existing input now) (task_row P existing) x v from
        (record {
          title = k.title;
          trimmed = k.trimmed;
          description = k.description;
          status = (existing.status, refl);
        })

  IsValid-IsStable :
      (config : Config) (headers : Headers)
      → IsStable P T config headers (λ w. IsValid (T.tasks w)) TaskFits
  IsValid-IsStable config headers = record {
    quiet = λ w w' s h. rw s.tasks h;
    logged = λ e w w' rows log h. rw rows h;
    found = Named-TaskFits;
    created = λ user input t w w' a v n fresh rows log h. rw rows (
      All-append RowFits (T.tasks w) (task_row P t ∷ []) h.0
          (task_row-RowFits P user.username input t v n, tt),
      UniqueIds-append (task_row P t) (T.tasks w) fresh h.1,
    );
    updated = λ user id existing input now w w' a v k p rows log h.
        let patch = task_patch P (patched P existing input now) in
        rw rows (
          All-patch_where RowFits existing.id patch (T.tasks w)
              (λ y _. patched-RowFits id existing input now y v k) h.0,
          UniqueIds-patch_where existing.id patch (T.tasks w) h.1,
        );
    deleted = λ user id existing w w' a k p rows log h.
        rw rows
          (All-remove_where RowFits id (T.tasks w) h.0, UniqueIds-remove_where id (T.tasks w) h.1);
  }

module _ (P : Platform) (T : Tables P) (L : IsLawful P T) (state : AppState) where
  -- Over a lawful database, requests served together keep a valid task table valid, in whatever
  -- order their steps follow one another: an update that was computed from a task that others have
  -- changed or deleted since stores no invalid row either.
  pub requests-IsValid :
      (reqs : List Request) (schedule : List ℕ) (s : Server P)
      → IsValid (T.tasks s.world)
      → IsValid (T.tasks (interleave schedule (map (handle_steps P state) reqs) s).1.world)
  requests-IsValid reqs schedule s h =
      requests-keep P T L state (λ w. IsValid (T.tasks w)) (TaskFits P T) reqs schedule s
        (All-everywhere
          (λ (req : Request).
            IsStable P T state.config req.headers (λ w. IsValid (T.tasks w)) (TaskFits P T))
          (λ req. IsValid-IsStable P T state.config req.headers) reqs)
        h
