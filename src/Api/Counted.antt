-- ===== src/Api/Counted.antt =====
-- The request counter and the latency histogram (src/observe.rs, `track_metrics`, around the whole application).
use mathlib.Core.List.{append-nil, append_assoc}
use rhel9_app_micro.Prelude.{
  ℕ, String, Bool, ◌≡◌, refl, ◌∙◌, sym, ap, List, [], ◌∷◌, ◌++◌, Bool-cases, inl, inr,
}
use rhel9_app_micro.Platform.{Platform}
use rhel9_app_micro.RateLimit
use rhel9_app_micro.Observe.{Server, client_key, rate_limit, track_metrics}
use rhel9_app_micro.Handlers.{AppState}
use rhel9_app_micro.Api.{Request, template, limited, started_world, handle, serve}

module _ (P : Platform) (state : AppState) where
  -- The labels of the counter for a request and the status of its reply.
  abbrev pub label : Request → ℕ → String × String × ℕ
  label req status = ((template req.endpoint).0, (template req.endpoint).1, status)

  -- The labels of the histogram, with a time.
  abbrev pub timing : Request → P.Seconds → String × String × P.Seconds
  timing req seconds = ((template req.endpoint).0, (template req.endpoint).1, seconds)

  -- What `serve` replies to each request, as the labels of the counter.
  unfoldable pub answered : List Request → Server P → List (String × String × ℕ)
  answered [] s = []
  answered (req ∷ reqs) s =
      let (reply, s') = handle P state req s in label req reply.0 ∷ answered reqs s'

  -- What the rate limit leaves alone.
  limited-metrics :
      (req : Request) (s : Server P)
      → ((limited P state req s).1.counted ≡ s.counted)
        × ((limited P state req s).1.latencies ≡ s.latencies)
  unfolding rate_limit
  limited-metrics req s = elim (Bool-cases allowed) [
    | inl admitted ↦ rw admitted (refl, refl)
    | inr refused ↦ rw refused (refl, refl)
  ]
    where
      w₁ : P.World
      w₁ = (client_key P state.config req.headers s.world).1

      allowed : Bool
      allowed =
          (RateLimit.check P.governor s.limiter (client_key P state.config req.headers s.world).0
            (P.instant_now w₁).0 (P.instant_now (P.instant_now w₁).1).0).0

  -- The time from the start of a request to its reply.
  abbrev pub latency : Request → Server P → P.Seconds
  latency req s =
      let (start, w) = P.monotonic_now s.world in
      (P.elapsed start (limited P state req (record s { world = w })).1.world).0

  handle-metrics :
      (req : Request) (s : Server P)
      → ((handle P state req s).1.counted ≡ s.counted ++ label req (handle P state req s).0.0 ∷ [])
        × ((handle P state req s).1.latencies ≡ s.latencies ++ timing req (latency req s) ∷ [])
  unfolding handle track_metrics
  handle-metrics req s =
      let kept = limited-metrics req (record s { world = started_world P s }) in
      (
        ap (λ l. l ++ label req (handle P state req s).0.0 ∷ []) kept.0,
        ap (λ l. l ++ timing req (latency req s) ∷ []) kept.1,
      )

  -- The time that each request takes, as the histogram records it.
  unfoldable pub durations : List Request → Server P → List (String × String × P.Seconds)
  durations [] s = []
  durations (req ∷ reqs) s = timing req (latency req s) ∷ durations reqs (handle P state req s).1

  -- Every request is counted once, under its method, its route template and the status of its
  -- reply, in the order of the requests, those that the rate limit refuses included; and as often
  -- the histogram records, under the same method and template, the time from the start of the
  -- request to its reply.
  pub serve-counted :
      (reqs : List Request) (s : Server P)
      → ((serve P state reqs s).counted ≡ s.counted ++ answered reqs s)
        × ((serve P state reqs s).latencies ≡ s.latencies ++ durations reqs s)
  unfolding serve answered durations
  serve-counted [] s = (sym (append-nil s.counted), sym (append-nil s.latencies))
  serve-counted (req ∷ reqs) s =
      let (reply, s') = handle P state req s in
      let rest = serve-counted reqs s' in
      let one = handle-metrics req s in
      (
        rest.0
            ∙ ap (λ l. l ++ answered reqs s') one.0
            ∙ append_assoc s.counted (label req reply.0 ∷ []) (answered reqs s'),
        rest.1
            ∙ ap (λ l. l ++ durations reqs s') one.1
            ∙ append_assoc s.latencies (timing req (latency req s) ∷ []) (durations reqs s'),
      )
