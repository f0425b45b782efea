-- ===== src/Api/Concurrent/Served.antt =====
-- What each step of a request keeps, the whole server keeps while requests are served together
-- (src/observe.rs around src/lib.rs, `build_router`).
use rhel9_app_micro.Prelude.{ℕ, String, Bool, true, false, List, [], ◌∷◌, map, if◌then◌else◌, All}
use rhel9_app_micro.Outcome.{ok, err}
use rhel9_app_micro.Process.{Process, finish, step, atom, interleave}
use rhel9_app_micro.Process.Promises.{Keeps, Keeps-then, interleave-Keeps}
use rhel9_app_micro.Models.{Task}
use rhel9_app_micro.Errors.{AppError}
use rhel9_app_micro.Platform.{Platform}
use rhel9_app_micro.Extract.{Headers}
use rhel9_app_micro.Observe.{Server, client_key}
use rhel9_app_micro.Db.Lawful.{Tables, Same, IsLawful}
use rhel9_app_micro.Db.Reads.{Same-trans}
use rhel9_app_micro.Handlers.{AppState}
use rhel9_app_micro.Api.{Request, Reply}
use rhel9_app_micro.Api.Answers.{client_key-Same}
use rhel9_app_micro.Api.Steps.{
  Steps, respond, on_world, admit, timed, count, observe, limited_steps, measure, handle_steps,
}
use rhel9_app_micro.Api.Concurrent.{IsStable}
use rhel9_app_micro.Api.Concurrent.Requests.{answer_steps-Keeps}

module _ (P : Platform) (T : Tables P) (L : IsLawful P T) (state : AppState) where
  -- The same invariant, of the whole server.
  module _ (I : P.World → Type 0) where
    abbrev pub OfWorld : Server P → Type 0
    OfWorld s = I s.world

    on_world-Keeps : {A : Type 0} (p : Steps P A) → Keeps I p → Keeps OfWorld (on_world P p)
    unfolding on_world
    on_world-Keeps (finish r) h = tt
    on_world-Keeps (step effect next) h =
        λ s i. ((h s.world i).0, on_world-Keeps (next s.world) (h s.world i).1)

    respond-Keeps :
        {T' : Type 0} (p : Process AppError (Server P) (Reply T'))
        → Keeps OfWorld p
        → Keeps OfWorld (respond P p)
    unfolding respond
    respond-Keeps (finish (ok reply)) h = tt
    respond-Keeps (finish (err e)) h = tt
    respond-Keeps (step effect next) h = λ s i. ((h s i).0, respond-Keeps (next s) (h s i).1)

    if-Keeps :
        {A : Type 0} (b : Bool) (p q : Process AppError (Server P) A)
        → Keeps OfWorld p
        → Keeps OfWorld q
        → Keeps OfWorld (if b then p else q)
    if-Keeps true p q h k = h
    if-Keeps false p q h k = k

  module _ (I : P.World → Type 0) (K : String → Task P.DateTime → Type 0) where
    admit-Keeps :
        (headers : Headers)
        → IsStable P T state.config headers I K
        → Keeps (OfWorld I) (atom (admit P state.config headers))
    unfolding admit
    admit-Keeps headers S s i =
        let w₁ = (client_key P state.config headers s.world).1 in
        (
          S.quiet s.world _
              (Same-trans P T (client_key-Same P T L state headers s.world)
                (Same-trans P T (L.instant_now w₁) (L.instant_now (P.instant_now w₁).1)))
              i,
          tt,
        )

    limited_steps-Keeps :
        (req : Request)
        → IsStable P T state.config req.headers I K
        → Keeps (OfWorld I) (limited_steps P state req)
    unfolding limited_steps
    limited_steps-Keeps req S =
        Keeps-then (OfWorld I) (atom (admit P state.config req.headers)) _
          (admit-Keeps req.headers S)
          λ allowed.
            if-Keeps I allowed _ _
              (respond-Keeps I _ (
                on_world-Keeps I _ (answer_steps-Keeps P T L state req.headers I K S req.endpoint)))
              tt

    -- A reading of the clock.
    timed-Keeps :
        {A : Type 0} {headers : Headers} (clock : P.World → A × P.World)
        → IsStable P T state.config headers I K
        → ((w : P.World) → Same P T w (clock w).1)
        → Keeps (OfWorld I) (atom (timed P clock))
    unfolding timed
    timed-Keeps clock S h s i = (S.quiet s.world _ (h s.world) i, tt)

    handle_steps-Keeps :
        (req : Request)
        → IsStable P T state.config req.headers I K
        → Keeps (OfWorld I) (handle_steps P state req)
    unfolding handle_steps measure count observe
    handle_steps-Keeps req S =
        Keeps-then (OfWorld I) (atom (timed P P.monotonic_now)) _
          (timed-Keeps P.monotonic_now S L.monotonic_now)
          λ start.
            Keeps-then (OfWorld I) (limited_steps P state req) _ (limited_steps-Keeps req S)
              λ reply.
                Keeps-then (OfWorld I) (atom (timed P (P.elapsed start))) _
                  (timed-Keeps (P.elapsed start) S (L.elapsed start))
                  λ latency.
                    Keeps-then (OfWorld I) (atom (count P req reply.0)) _ (λ s i. (i, tt))
                      λ a.
                        Keeps-then (OfWorld I) (atom (observe P req latency)) _ (λ s i. (i, tt))
                          λ b. tt

    All-Keeps :
        (reqs : List Request)
        → All (λ (req : Request). IsStable P T state.config req.headers I K) reqs
        → All (λ p. Keeps (OfWorld I) p) (map (handle_steps P state) reqs)
    All-Keeps [] h = tt
    All-Keeps (req ∷ reqs) h = (handle_steps-Keeps req h.0, All-Keeps reqs h.1)

    -- What withstands each kind of step withstands every interleaving of requests.
    pub requests-keep :
        (reqs : List Request) (schedule : List ℕ) (s : Server P)
        → All (λ (req : Request). IsStable P T state.config req.headers I K) reqs
        → I s.world
        → I (interleave schedule (map (handle_steps P state) reqs) s).1.world
    requests-keep reqs schedule s h i =
        interleave-Keeps (OfWorld I) schedule (map (handle_steps P state) reqs) s (All-Keeps reqs h)
          i
