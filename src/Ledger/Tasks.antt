-- ===== src/Ledger/Tasks.antt =====
-- The handlers of src/handlers.rs on one task do what the ledger promises, where the database is up.
use rhel9_app_micro.Prelude.{String, ◌≡◌, refl, ◌∙◌, inl, inr, Option-cases, Bool-cases}
use rhel9_app_micro.Outcome.{Except, ok, err, Except-cases}
use rhel9_app_micro.Models.{Task, UpdateTask, validate_update}
use rhel9_app_micro.Errors.{AppError, bad_request, not_found, forbidden}
use rhel9_app_micro.Platform.{Platform}
use rhel9_app_micro.Extract.{AuthUser}
use rhel9_app_micro.Db.Lawful.{Tables, IsLawful}
use rhel9_app_micro.Db.Lawful.Rows.{find_task}
use rhel9_app_micro.Db.Available.{IsAvailable}
use rhel9_app_micro.Handlers.{existing_task, get_task, update_task, delete_task}
use rhel9_app_micro.Api.{Reply, refuse, task, plain}
use rhel9_app_micro.Api.Rows.{find_task-id}
use rhel9_app_micro.Ledger.{
  Command, read, update, delete, Verdict, invalid, absent, denied, modify_own, delete_own, may,
  decide,
}
use rhel9_app_micro.Ledger.View.{entry, ledger, ledger-Same, Decodes-entry}
use rhel9_app_micro.Ledger.Located.{
  Located, existing_task-Located, StopsWith, update_invalid, update_absent, update_stranger,
  delete_absent, delete_stranger,
}
use rhel9_app_micro.Ledger.Verdicts.{Matches, replied, Meets, MeetsLogged, Stops-Meets}
use rhel9_app_micro.Ledger.Changes.{update_allowed, delete_allowed}

module _ (P : Platform) (T : Tables P) where
  module _ (L : IsLawful P T) (A : IsAvailable P T) (user : AuthUser) where
    pub get_task-Meets :
        (id : String) (w : P.World)
        → Meets P T user (read id) w (replied (λ t. (200, task t)) (get_task P user id w))
    unfolding get_task decide
    get_task-Meets id w = go (existing_task P id w) (existing_task-Located P T L A.reads id w)
      where
        go :
            (x : Except AppError (Task P.DateTime) × P.World)
            → Located P T L A.reads id w x
            → Meets P T user (read id) w (replied (λ t. (200, task t)) x)
        go (ok t, w') (s, (r, f, d)) = rw f (
          (t, refl, d.id ∙ find_task-id id r (T.tasks w) f, Decodes-entry P r t d),
          ledger-Same P T s,
        )
        go (err e, w') (s, none_there, is) = rw (none_there, is) (refl, ledger-Same P T s)

    -- Where a change stops early, the event's id does not matter.
    stopped-MeetsLogged :
        {B : Type 0} (c : String → Command) (w : P.World) (f : B → Reply P.DateTime)
        (x : Except AppError B × P.World) (e : AppError) (v : Verdict)
        → StopsWith P T L A.reads e w x
        → ((event : String) → decide user (c event) (ledger P T w) ≡ (v, ledger P T w))
        → Matches {D = P.DateTime} v (refuse e)
        → MeetsLogged P T user c w (replied f x)
    stopped-MeetsLogged c w f x e v h d m =
        let event = (P.new_v4 w).0 in
        (event, (w, refl), Stops-Meets P T L A.reads user (c event) w f e v x h (d event) m)

    -- An update meets the promise, whatever the ledger says of the task.
    pub update_task-MeetsLogged :
        (id : String) (input : UpdateTask) (w : P.World)
        → MeetsLogged P T user
            (update id input)
            w
            (replied (λ t. (200, task t)) (update_task P user id input w))
    unfolding decide
    update_task-MeetsLogged id input w = elim (Except-cases (validate_update input)) [
      | inr (m, v) ↦
          stops (bad_request m) (invalid m) (update_invalid P T L A.reads user id input w m v)
            (λ event. rw v refl) refl
      | inl (a, v) ↦ elim (Option-cases (find_task id (T.tasks w))) [
        | inl f ↦
            stops (not_found "task not found") absent
              (update_absent P T L A.reads user id input w v f) (λ event. rw (v, f) refl) refl
        | inr (r, f) ↦ elim (Bool-cases (may user (entry r))) [
          | inl allowed ↦ update_allowed P T L A user id input w r v f allowed
          | inr refused ↦
              stops (forbidden modify_own) (denied modify_own)
                (update_stranger P T L A.reads user id input w r v f refused)
                (λ event. rw (v, f, refused) refl) refl
        ]
      ]
    ]
      where
        stops :
            (e : AppError) (v : Verdict)
            → StopsWith P T L A.reads e w (update_task P user id input w)
            → ((event : String)
                → decide user (update id input event) (ledger P T w) ≡ (v, ledger P T w))
            → Matches {D = P.DateTime} v (refuse e)
            → MeetsLogged P T user
                (update id input)
                w
                (replied (λ t. (200, task t)) (update_task P user id input w))
        stops e v = stopped-MeetsLogged (update id input) w _ (update_task P user id input w) e v

    -- So does a deletion.
    pub delete_task-MeetsLogged :
        (id : String) (w : P.World)
        → MeetsLogged P T user
            (delete id)
            w
            (replied (λ status. (status, plain)) (delete_task P user id w))
    unfolding decide
    delete_task-MeetsLogged id w = elim (Option-cases (find_task id (T.tasks w))) [
      | inl f ↦
          stops (not_found "task not found") absent (delete_absent P T L A.reads user id w f)
            (λ event. rw f refl) refl
      | inr (r, f) ↦ elim (Bool-cases (may user (entry r))) [
        | inl allowed ↦ delete_allowed P T L A user id w r f allowed
        | inr refused ↦
            stops (forbidden delete_own) (denied delete_own)
              (delete_stranger P T L A.reads user id w r f refused) (λ event. rw (f, refused) refl)
              refl
      ]
    ]
      where
        stops :
            (e : AppError) (v : Verdict)
            → StopsWith P T L A.reads e w (delete_task P user id w)
            → ((event : String) → decide user (delete id event) (ledger P T w) ≡ (v, ledger P T w))
            → Matches {D = P.DateTime} v (refuse e)
            → MeetsLogged P T user
                (delete id)
                w
                (replied (λ status. (status, plain)) (delete_task P user id w))
        stops e v = stopped-MeetsLogged (delete id) w _ (delete_task P user id w) e v
