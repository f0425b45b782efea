-- ===== src/Api/Effects.antt =====
-- What one request can do to the tables: nothing, or one of three changes, made by a user that the
-- request's token names (src/lib.rs, `build_router`).
use rhel9_app_micro.Prelude.{ℕ, String, ◌≡◌, ◌∙◌, refl, ◌⊎◌, inl, inr, [], ◌∷◌, ◌++◌}
use rhel9_app_micro.Outcome.{Except, ok, err, Act, pure, ◌>>=◌, bind-ensures}
use rhel9_app_micro.Models.{Task, CreateTask, UpdateTask, validate_update}
use rhel9_app_micro.Errors.{AppError}
use rhel9_app_micro.Config.{Config}
use rhel9_app_micro.Platform.{Platform}
use rhel9_app_micro.Extract.{Headers, AuthUser, auth_user}
use rhel9_app_micro.Db.Lawful.{Tables, Same, IsLawful}
use rhel9_app_micro.Db.Lawful.Rows.{AuditRow}
use rhel9_app_micro.Db.Reads.{Same-refl, Same-trans}
use rhel9_app_micro.Api.Quiet.{auth_user-Quiet}
use rhel9_app_micro.Handlers.Create.{Stored, CreateOutcome}
use rhel9_app_micro.Handlers.Permission.{Refusal}
use rhel9_app_micro.Handlers.Update.{Changed, UpdateOutcome}
use rhel9_app_micro.Handlers.Delete.{Removed, DeleteOutcome}

module _ (P : Platform) (T : Tables P) where
  -- The headers authenticate this user, in some state of the world.
  abbrev pub Authenticates : Config → Headers → AuthUser → Type 0
  Authenticates config headers user =
      (v : P.World) × (v' : P.World) × (auth_user P config headers v ≡ (ok user, v'))

  -- The audit log is as it was, or has one more event at its end.
  abbrev pub Extends : P.World → P.World → Type 0
  Extends w w' =
      (T.audits w' ≡ T.audits w) ⊎ ((e : AuditRow) × (T.audits w' ≡ T.audits w ++ e ∷ []))

  Extends-before : {w w₁ w' : P.World} → Same P T w₁ w' → Extends w w₁ → Extends w w'
  Extends-before s (inl e) = inl (s.audits ∙ e)
  Extends-before s (inr (e, h)) = inr (e, s.audits ∙ h)

  pub data Effect (config : Config) (headers : Headers) (w w' : P.World) : Type 0 where
    quiet : Same P T w w' → Effect config headers w w'
    created :
        (user : AuthUser) (input : CreateTask) (t : Task P.DateTime)
        → Authenticates config headers user
        → Stored P T user input t w w'
        → Extends w w'
        → Effect config headers w w'
    updated :
        (user : AuthUser) (id : String) (input : UpdateTask) (t : Task P.DateTime)
        → Authenticates config headers user
        → validate_update input ≡ ok tt
        → Changed P T user id input t w w'
        → Extends w w'
        → Effect config headers w w'
    deleted :
        (user : AuthUser) (id : String)
        → Authenticates config headers user
        → Removed P T user id w w'
        → Extends w w'
        → Effect config headers w w'

  module _ (config : Config) (headers : Headers) where
    -- The effect of an action, whatever it returns.
    abbrev pub Does : {A : Type 0} → P.World → Except AppError A × P.World → Type 0
    Does w r = Effect config headers w r.1

    pub Effect-after :
        {w w₁ w' : P.World}
        → Same P T w w₁
        → Effect config headers w₁ w'
        → Effect config headers w w'
    Effect-after s (quiet h) = quiet (Same-trans P T s h)
    Effect-after s (created user input t a st x) =
        created user input t a (st.0, st.1, rw s.tasks at st.2, rw s.tasks at st.3)
          (rw s.audits at x)
    Effect-after s (updated user id input t a v (c, d) x) =
        updated user id input t a v (rw s.tasks at c, rw s.tasks at d) (rw s.audits at x)
    Effect-after s (deleted user id a (c, d) x) =
        deleted user id a (rw s.tasks at c, rw s.tasks at d) (rw s.audits at x)

    pub Effect-before :
        {w w₁ w' : P.World}
        → Same P T w₁ w'
        → Effect config headers w w₁
        → Effect config headers w w'
    Effect-before s (quiet h) = quiet (Same-trans P T h s)
    Effect-before s (created user input t a st x) =
        created user input t a (st.0, st.1, st.2, s.tasks ∙ st.3) (Extends-before s x)
    Effect-before s (updated user id input t a v (c, d) x) =
        updated user id input t a v (c, s.tasks ∙ d) (Extends-before s x)
    Effect-before s (deleted user id a (c, d) x) =
        deleted user id a (c, s.tasks ∙ d) (Extends-before s x)

    module _ (user : AuthUser) (a : Authenticates config headers user) (w : P.World) where
      pub create-Does :
          (input : CreateTask) (r : Except AppError (ℕ × Task P.DateTime) × P.World)
          → CreateOutcome P T user input w r
          → Does w r
      create-Does input (ok (status, t), w') h = created user input t a h.1 (inr (h.2.0, h.2.2))
      create-Does input (err e, w') (inl (is, _)) = quiet (rw is (Same-refl P T w))
      create-Does input (err e, w') (inr (_, v, x, inl s)) =
          quiet (record { tasks = s; audits = x })
      create-Does input (err e, w') (inr (_, v, x, inr (t, st))) = created user input t a st (inl x)

      Refusal-Does :
          {id message : String} {w' : P.World} {e : AppError}
          → Refusal P T user id message w w' e
          → Effect config headers w w'
      Refusal-Does (Refusal.absent s _ _) = quiet s
      Refusal-Does (Refusal.stranger _ s _ _ _ _) = quiet s
      Refusal-Does (Refusal.broken s _) = quiet s

      pub update-Does :
          (id : String) (input : UpdateTask) (r : Except AppError (Task P.DateTime) × P.World)
          → UpdateOutcome P T user id input w r
          → Does w r
      update-Does id input (ok t, w') h = updated user id input t a h.0 h.1 (inr (h.2.0, h.2.2))
      update-Does id input (err e, w') (inl (is, _)) = quiet (rw is (Same-refl P T w))
      update-Does id input (err e, w') (inr (v, inl refused)) = Refusal-Does refused
      update-Does id input (err e, w') (inr (v, inr (_, x, (t, c, _)))) =
          updated user id input t a v c (inl x)

      pub delete-Does :
          (id : String) (r : Except AppError ℕ × P.World) → DeleteOutcome P T user id w r → Does w r
      delete-Does id (ok status, w') h = deleted user id a h.1 (inr (h.2.0, h.2.2))
      delete-Does id (err e, w') (inl refused) = Refusal-Does refused
      delete-Does id (err e, w') (inr (_, x, c)) = deleted user id a c (inl x)

    module _ (L : IsLawful P T) where
      -- A quiet step, and the rest behind it.
      pub quiet-then :
          {A B : Type 0} (m : Act AppError P.World A) (f : A → Act AppError P.World B) (w : P.World)
          → Same P T w (m w).1
          → ((a : A) (w' : P.World) → Does w' (f a w'))
          → Does w ((m >>= f) w)
      quiet-then m f w q k =
          bind-ensures m f w (λ r. Same P T w r.1) (Does w) q (λ a w' s. Effect-after s (k a w'))
            (λ e w' s. quiet s)

      -- The same, where the rest is done by the user that the step finds.
      pub auth-then :
          {B : Type 0} (f : AuthUser → Act AppError P.World B) (w : P.World)
          → ((user : AuthUser) (w' : P.World)
              → Authenticates config headers user
              → Does w' (f user w'))
          → Does w ((auth_user P config headers >>= f) w)
      auth-then f w k =
          bind-ensures (auth_user P config headers) f w
            (λ r. Same P T w r.1 × (auth_user P config headers w ≡ r)) (Does w)
            (auth_user-Quiet P T L config headers w, refl)
            (λ user w' q. Effect-after q.0 (k user w' (w, w', q.1))) (λ e w' q. quiet q.0)

      -- A change, and the answer made of its result.
      pub change-then :
          {A B : Type 0} (m : Act AppError P.World A) (f : A → B) (w : P.World)
          → Does w (m w)
          → Does w ((m >>= λ a. pure (f a)) w)
      change-then m f w h =
          bind-ensures m (λ a. pure (f a)) w (Does w) (Does w) h (λ a w' d. d) (λ e w' d. d)
