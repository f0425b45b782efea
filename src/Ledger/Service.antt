-- ===== src/Ledger/Service.antt =====
-- The whole application is an implementation of the ledger (src/lib.rs with all that it calls).
use rhel9_app_micro.Prelude.{◌≡◌, refl, ◌∙◌, ap, inl, inr, Bool, Bool-cases, List, [], ◌∷◌}
use rhel9_app_micro.Errors.{too_many_requests}
use rhel9_app_micro.Platform.{Platform}
use rhel9_app_micro.RateLimit
use rhel9_app_micro.Observe.{Server, client_key, rate_limit, track_metrics}
use rhel9_app_micro.Db.Lawful.{Tables, Same, IsLawful}
use rhel9_app_micro.Db.Reads.{Same-trans}
use rhel9_app_micro.Db.Available.{IsAvailable}
use rhel9_app_micro.Handlers.{AppState}
use rhel9_app_micro.Api.{Request, Reply, refuse, limited, handle, serve}
use rhel9_app_micro.Api.Answers.{client_key-Same}
use rhel9_app_micro.Ledger.{Call, replay}
use rhel9_app_micro.Ledger.View.{ledger}
use rhel9_app_micro.Ledger.Requests.{
  Fits, Refines, Refines-before, Refines-after, refused-Idle, Idle-Refines, route-Refines,
}

module _ (P : Platform) (T : Tables P) (L : IsLawful P T) (A : IsAvailable P T)
    (state : AppState) where
  -- A server's reply and the world that it left.
  abbrev outcome : Reply P.DateTime × Server P → Reply P.DateTime × P.World
  outcome r = (r.0, r.1.world)

  limited-Refines :
      (req : Request) (s : Server P)
      → Refines P T state req.headers req.endpoint s.world (outcome (limited P state req s))
  unfolding rate_limit
  limited-Refines req s = elim (Bool-cases allowed) [
    | inl admitted ↦ rw admitted (
        Refines-before P T state req.headers req.endpoint s.world w₃ _ keyed
          (route-Refines P T state req.headers L A req.endpoint w₃))
    | inr refused ↦ rw refused (
        Idle-Refines P T state req.headers req.endpoint s.world w₃ (refuse too_many_requests)
          (refused-Idle req.endpoint (refuse too_many_requests) (inl refl)) keyed)
  ]
    where
      w₁ : P.World
      w₁ = (client_key P state.config req.headers s.world).1

      w₃ : P.World
      w₃ = (P.instant_now (P.instant_now w₁).1).1

      keyed : Same P T s.world w₃
      keyed =
          Same-trans P T (client_key-Same P T L state req.headers s.world)
            (Same-trans P T (L.instant_now w₁) (L.instant_now (P.instant_now w₁).1))

      allowed : Bool
      allowed =
          (RateLimit.check P.governor s.limiter (client_key P state.config req.headers s.world).0
            (P.instant_now w₁).0 (P.instant_now (P.instant_now w₁).1).0).0

  handle-Refines :
      (req : Request) (s : Server P)
      → Refines P T state req.headers req.endpoint s.world (outcome (handle P state req s))
  unfolding handle track_metrics
  handle-Refines req s =
      let (start, w) = P.monotonic_now s.world in
      let (reply, s') = limited P state req (record s { world = w }) in
      Refines-before P T state req.headers req.endpoint s.world w _ (L.monotonic_now s.world) (
        Refines-after P T state req.headers req.endpoint w s'.world _ reply
          (L.elapsed start s'.world) (limited-Refines req (record s { world = w })))

  -- Each request, with its reply, fits its call.
  abbrev pub Serves : List Request → List Call → Server P → Type 0
  Serves [] [] s = Unit
  Serves [] (c ∷ cs) s = ⊥
  Serves (req ∷ reqs) [] s = ⊥
  Serves (req ∷ reqs) (c ∷ cs) s =
      Fits P T state req.headers req.endpoint (ledger P T s.world) (handle P state req s).0 c
      × Serves reqs cs (handle P state req s).1

  -- Over a lawful database that is up, the application implements the ledger: any sequence of
  -- requests comes to a sequence of calls, one for each, that make of the map of tasks and the log
  -- what the tables then hold. The call of a request on one task is the command that it asks for,
  -- by a user that its headers authenticate, and its reply is the verdict of the ledger on that
  -- command, where the ids of the new task and of the event are some that uuid drew (a change whose
  -- event gets an id that is in use is made and not logged); or the request was refused, with 429,
  -- a 401, or the rejection of its path or body, and the call is idle. So is the call of every
  -- other request. An idle call changes nothing.
  pub serve-refines :
      (reqs : List Request) (s : Server P)
      → (calls : List Call) × Serves reqs calls s
        × (ledger P T (serve P state reqs s).world ≡ replay calls (ledger P T s.world))
  unfolding serve replay
  serve-refines [] s = ([], tt, refl)
  serve-refines (req ∷ reqs) s =
      let (c, fits, e) = handle-Refines req s in
      let (cs, ss, es) = serve-refines reqs (handle P state req s).1 in
      (c ∷ cs, (fits, ss), es ∙ ap (replay cs) e)
