-- ===== src/Ledger/Requests.antt =====
-- The routes of src/lib.rs as commands on the ledger.
use mathlib.Core.Path.{subst}
use rhel9_app_micro.Prelude.{◌≡◌, refl, ◌∙◌, ◌⊎◌, inl, inr}
use rhel9_app_micro.Outcome.{Except, ok, err, pure, ◌>>=◌, continue, bind-ensures}
use rhel9_app_micro.Errors.{AppError, too_many_requests}
use rhel9_app_micro.Platform.{Platform}
use rhel9_app_micro.Extract.{Headers, AuthUser, auth_user, admin_user}
use rhel9_app_micro.Db.{App}
use rhel9_app_micro.Db.Lawful.{Tables, Same, IsLawful}
use rhel9_app_micro.Db.Reads.{Same-refl}
use rhel9_app_micro.Db.Available.{IsAvailable}
use rhel9_app_micro.Observe.Keys.{IsUnauthorized, Keyed, auth_user-Keyed}
use rhel9_app_micro.Handlers
use rhel9_app_micro.Handlers.{AppState}
use rhel9_app_micro.Api.{
  undecodable, Extracted, Endpoint, login, list_tasks, create_task, get_task, update_task,
  delete_task, list_audit, healthz, openapi_json, swagger_ui, metrics, readyz, Reply, plain, refuse,
  extracted, answer, into_response, route,
}
use rhel9_app_micro.Api.Effects.{Authenticates}
use rhel9_app_micro.Api.Quiet.{
  bind-Quiet, auth_user-Quiet, admin_user-Quiet, login-Quiet, list_tasks-Quiet, list_audit-Quiet,
  readyz-Same,
}
use rhel9_app_micro.Ledger.{
  Ledger, Command, create, read, update, delete, decide, Call, by, idle, after,
}
use rhel9_app_micro.Ledger.View.{ledger, ledger-Same}
use rhel9_app_micro.Ledger.Verdicts.{Drawn, Matches, replied, Meets}
use rhel9_app_micro.Ledger.Tasks.{get_task-Meets, update_task-MeetsLogged, delete_task-MeetsLogged}
use rhel9_app_micro.Ledger.Creation.{create_task-Creation}

-- The command that a request to an endpoint stands for.
abbrev pub Asks : Endpoint → Command → Type 0
Asks (create_task (ok input)) (create id input' event) = input' ≡ input
Asks (get_task id) (read id') = id' ≡ id
Asks (update_task id (ok input)) (update id' input' event) = (id' ≡ id) × (input' ≡ input)
Asks (delete_task id) (delete id' event) = id' ≡ id
Asks endpoint c = ⊥

-- The ids that a command comes with are drawn.
abbrev pub IdsDrawn : (P : Platform) → Command → Type 0
IdsDrawn P (create id input event) = Drawn P id × Drawn P event
IdsDrawn P (read id) = Unit
IdsDrawn P (update id input event) = Drawn P event
IdsDrawn P (delete id event) = Drawn P event

-- Too many requests, or no user.
abbrev pub IsRefused : {D : Type 0} → Reply D → Type 0
IsRefused reply =
    (reply ≡ refuse too_many_requests) ⊎ ((e : AppError) × IsUnauthorized e × (reply ≡ refuse e))

-- The replies with which a request on one task may do nothing; other requests never do anything.
abbrev pub Idle : {D : Type 0} → Endpoint → Reply D → Type 0
Idle (create_task (ok input)) reply = IsRefused reply
Idle (create_task (err status)) reply = IsRefused reply ⊎ (reply ≡ (status, plain))
Idle (get_task id) reply = IsRefused reply
Idle (update_task id (ok input)) reply = IsRefused reply
Idle (update_task id (err status)) reply = IsRefused reply ⊎ (reply ≡ (status, plain))
Idle (delete_task id) reply = IsRefused reply
Idle (undecodable handler status) reply = IsRefused reply ⊎ (reply ≡ (status, plain))
Idle endpoint reply = Unit

pub refused-Idle :
    {D : Type 0} (endpoint : Endpoint) (reply : Reply D) → IsRefused reply → Idle endpoint reply
refused-Idle (login body) reply h = tt
refused-Idle (list_tasks query) reply h = tt
refused-Idle (create_task (ok input)) reply h = h
refused-Idle (create_task (err status)) reply h = inl h
refused-Idle (get_task id) reply h = h
refused-Idle (update_task id (ok input)) reply h = h
refused-Idle (update_task id (err status)) reply h = inl h
refused-Idle (delete_task id) reply h = h
refused-Idle (undecodable handler status) reply h = inl h
refused-Idle (list_audit query) reply h = tt
refused-Idle healthz reply h = tt
refused-Idle readyz reply h = tt
refused-Idle openapi_json reply h = tt
refused-Idle swagger_ui reply h = tt
refused-Idle metrics reply h = tt

module _ (P : Platform) (T : Tables P) (state : AppState) (headers : Headers) where
  -- A request and its reply, as a call on the ledger `l`.
  abbrev pub Fits : Endpoint → Ledger → Reply P.DateTime → Call → Type 0
  Fits endpoint l reply (by user c) =
      Authenticates P T state.config headers user
      × Asks endpoint c
      × IdsDrawn P c
      × Matches (decide user c l).0 reply
  Fits endpoint l reply idle = Idle endpoint reply

  -- What a request did to the ledger `l` is what a call does that fits it.
  abbrev pub RefinesFrom : Ledger → Endpoint → Reply P.DateTime × P.World → Type 0
  RefinesFrom l endpoint r = (c : Call) × Fits endpoint l r.0 c × (ledger P T r.1 ≡ after c l)

  abbrev pub Refines : Endpoint → P.World → Reply P.DateTime × P.World → Type 0
  Refines endpoint w r = RefinesFrom (ledger P T w) endpoint r

  pub Refines-before :
      (endpoint : Endpoint) (w w₁ : P.World) (r : Reply P.DateTime × P.World)
      → Same P T w w₁
      → Refines endpoint w₁ r
      → Refines endpoint w r
  Refines-before endpoint w w₁ r s h = subst (λ l. RefinesFrom l endpoint r) (ledger-Same P T s) h

  pub Refines-after :
      (endpoint : Endpoint) (w w₁ w' : P.World) (reply : Reply P.DateTime)
      → Same P T w₁ w'
      → Refines endpoint w (reply, w₁)
      → Refines endpoint w (reply, w')
  Refines-after endpoint w w₁ w' reply s (c, f, e) = (c, f, ledger-Same P T s ∙ e)

  pub Idle-Refines :
      (endpoint : Endpoint) (w w' : P.World) (reply : Reply P.DateTime)
      → Idle endpoint reply
      → Same P T w w'
      → Refines endpoint w (reply, w')
  Idle-Refines endpoint w w' reply h s = (idle, h, ledger-Same P T s)

  -- A command that meets the promise, with its reply.
  command-Refines :
      {B : Type 0} (endpoint : Endpoint) (user : AuthUser) (c : Command) (w : P.World)
      (f : B → Reply P.DateTime) (x : Except AppError B × P.World)
      → Authenticates P T state.config headers user
      → Asks endpoint c
      → IdsDrawn P c
      → Meets P T user c w (replied f x)
      → Refines endpoint w (into_response P (continue (λ b. pure (f b)) x))
  command-Refines endpoint user c w f (ok b, w') a asks d m = (by user c, (a, asks, d, m.0), m.1)
  command-Refines endpoint user c w f (err e, w') a asks d m = (by user c, (a, asks, d, m.0), m.1)

  module _ (L : IsLawful P T) where
    -- An action that changes no table, on an endpoint that is no command.
    quiet-Refines :
        (endpoint : Endpoint) (w : P.World) (x : Except AppError (Reply P.DateTime) × P.World)
        → ((reply : Reply P.DateTime) → Idle endpoint reply)
        → Same P T w x.1
        → Refines endpoint w (into_response P x)
    quiet-Refines endpoint w (ok reply, w') any s = Idle-Refines endpoint w w' reply (any reply) s
    quiet-Refines endpoint w (err e, w') any s =
        Idle-Refines endpoint w w' (refuse e) (any (refuse e)) s

    extracted-Quiet :
        {A : Type 0} (x : Extracted A) (k : A → App P (Reply P.DateTime)) (w : P.World)
        → ((a : A) → Same P T w (k a w).1)
        → Same P T w (extracted P x k w).1
    extracted-Quiet (ok a) k w h = h a
    extracted-Quiet (err status) k w h = Same-refl P T w

    -- Behind the authentication of the user.
    auth-Refines :
        (endpoint : Endpoint) (k : AuthUser → App P (Reply P.DateTime)) (w : P.World)
        → ((user : AuthUser) (w₁ : P.World)
            → Authenticates P T state.config headers user
            → Refines endpoint w₁ (into_response P (k user w₁)))
        → Refines endpoint w (into_response P ((auth_user P state.config headers >>= k) w))
    auth-Refines endpoint k w rest =
        bind-ensures (auth_user P state.config headers) k w
          (λ x.
            Same P T w x.1
            × Keyed P state.config headers w x
            × (auth_user P state.config headers w ≡ x))
          (λ x. Refines endpoint w (into_response P x))
          (
            auth_user-Quiet P T L state.config headers w,
            auth_user-Keyed P state.config headers w,
            refl,
          )
          (λ user w₁ (s, _, e). Refines-before endpoint w w₁ _ s (rest user w₁ (w, w₁, e)))
          (λ e w₁ (s, keyed, _).
            Idle-Refines endpoint w w₁ (refuse e)
              (refused-Idle endpoint (refuse e) (inr (e, keyed.0, refl))) s)

    module _ (A : IsAvailable P T) where
      -- Every route does to the ledger what a call does that fits it.
      pub route-Refines :
          (endpoint : Endpoint) (w : P.World)
          → Refines endpoint w (route P state (record { headers = headers; endpoint = endpoint }) w)
      unfolding route answer
      route-Refines (login body) w =
          quiet-Refines (login body) w _ (λ reply. tt)
            (extracted-Quiet body _ w λ req.
              bind-Quiet P T L (Handlers.login P state req) _ w (login-Quiet P T L state req w)
                (λ r w'. Same-refl P T w'))
      route-Refines (list_tasks query) w =
          quiet-Refines (list_tasks query) w _ (λ reply. tt)
            (bind-Quiet P T L (auth_user P state.config headers) _ w
              (auth_user-Quiet P T L state.config headers w)
              λ user w₁. extracted-Quiet query _ w₁ λ p.
                bind-Quiet P T L (Handlers.list_tasks P user p) _ w₁
                  (list_tasks-Quiet P T L user p w₁) (λ r w'. Same-refl P T w'))
      route-Refines (create_task (ok input)) w =
          auth-Refines (create_task (ok input)) _ w λ user w₁ a.
            let (id, d, (event, from, m)) = create_task-Creation P T L A user input w₁ in
            command-Refines (create_task (ok input)) user (create id input event) w₁ _
              (Handlers.create_task P user input w₁) a refl (d, from) m
      route-Refines (create_task (err status)) w =
          auth-Refines (create_task (err status)) _ w λ user w₁ a.
            Idle-Refines (create_task (err status)) w₁ w₁ (status, plain) (inr refl)
              (Same-refl P T w₁)
      route-Refines (get_task id) w = auth-Refines (get_task id) _ w λ user w₁ a.
          command-Refines (get_task id) user (read id) w₁ _ (Handlers.get_task P user id w₁) a refl
            tt (get_task-Meets P T L A user id w₁)
      route-Refines (update_task id (ok input)) w =
          auth-Refines (update_task id (ok input)) _ w λ user w₁ a.
            let (event, from, m) = update_task-MeetsLogged P T L A user id input w₁ in
            command-Refines (update_task id (ok input)) user (update id input event) w₁ _
              (Handlers.update_task P user id input w₁) a (refl, refl) from m
      route-Refines (update_task id (err status)) w =
          auth-Refines (update_task id (err status)) _ w λ user w₁ a.
            Idle-Refines (update_task id (err status)) w₁ w₁ (status, plain) (inr refl)
              (Same-refl P T w₁)
      route-Refines (delete_task id) w = auth-Refines (delete_task id) _ w λ user w₁ a.
          let (event, from, m) = delete_task-MeetsLogged P T L A user id w₁ in
          command-Refines (delete_task id) user (delete id event) w₁ _
            (Handlers.delete_task P user id w₁) a refl from m
      route-Refines (undecodable handler status) w =
          auth-Refines (undecodable handler status) _ w λ user w₁ a.
            Idle-Refines (undecodable handler status) w₁ w₁ (status, plain) (inr refl)
              (Same-refl P T w₁)
      route-Refines (list_audit query) w =
          quiet-Refines (list_audit query) w _ (λ reply. tt)
            (bind-Quiet P T L (admin_user P state.config headers) _ w
              (admin_user-Quiet P T L state.config headers w)
              λ admin w₁. extracted-Quiet query _ w₁ λ q.
                bind-Quiet P T L (Handlers.list_audit P admin q) _ w₁
                  (list_audit-Quiet P T L admin q w₁) (λ r w'. Same-refl P T w'))
      route-Refines healthz w = Idle-Refines healthz w w _ tt (Same-refl P T w)
      route-Refines openapi_json w = Idle-Refines openapi_json w w _ tt (Same-refl P T w)
      route-Refines swagger_ui w = Idle-Refines swagger_ui w w _ tt (Same-refl P T w)
      route-Refines metrics w = Idle-Refines metrics w w _ tt (Same-refl P T w)
      route-Refines readyz w =
          Idle-Refines readyz w (Handlers.readyz P w).1 _ tt (readyz-Same P T L w)
