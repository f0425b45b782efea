-- ===== src/Api/Burst.antt =====
-- What the rate limit makes of the requests of one client (src/ratelimit.rs under src/observe.rs
-- and src/lib.rs).
use rhel9_app_micro.Prelude.{
  ℕ, String, Bool, true, false, ◌≡◌, refl, ◌∙◌, ap, inl, inr, List, [], ◌∷◌, str_eq, length, ltb,
  if◌then◌else◌, Bool-cases,
}
use rhel9_app_micro.Errors.{too_many_requests}
use rhel9_app_micro.Platform.{Platform}
use rhel9_app_micro.RateLimit
use rhel9_app_micro.RateLimit.Isolation.{Call, only, answers}
use rhel9_app_micro.RateLimit.Burst.{AllowsBurst, AtInstant, answers-new, admit}
use rhel9_app_micro.Observe.{Server, client_key, rate_limit, track_metrics}
use rhel9_app_micro.Handlers.{AppState}
use rhel9_app_micro.Api.{Request, Reply, refuse, route, started_world, handle}

module _ (P : Platform) (state : AppState) where
  -- The call of the limiter that a request makes: its client's key and two readings of the clock.
  abbrev pub call : Request → Server P → Call P.governor
  call req s =
      let (key, w₁) = client_key P state.config req.headers (started_world P s) in
      let (start, w₂) = P.instant_now w₁ in
      record { key = key; start = start; now = (P.instant_now w₂).0 }

  -- The calls that requests make, one after another.
  unfoldable pub calls : List Request → Server P → List (Call P.governor)
  calls [] s = []
  calls (req ∷ reqs) s = call req s ∷ calls reqs (handle P state req s).1

  -- The world in which the routes answer a request that is admitted.
  abbrev pub admitted_world : Request → Server P → P.World
  admitted_world req s =
      let w₁ = (client_key P state.config req.headers (started_world P s)).1 in
      (P.instant_now (P.instant_now w₁).1).1

  -- A request, that world, and the reply that the application gave.
  abbrev pub Exchange : Type 0
  Exchange = Request × P.World × Reply P.DateTime

  -- The requests whose client has the key `k`, with their replies.
  unfoldable pub exchanges : String → List Request → Server P → List Exchange
  exchanges k [] s = []
  exchanges k (req ∷ reqs) s =
      let (reply, s') = handle P state req s in
      let rest = exchanges k reqs s' in
      if str_eq (call req s).key k then (req, admitted_world req s, reply) ∷ rest else rest

  -- One reply to each verdict: that of the routes, or 429.
  abbrev pub Follow : List Bool → List Exchange → Type 0
  Follow [] [] = Unit
  Follow [] (x ∷ xs) = ⊥
  Follow (b ∷ bs) [] = ⊥
  Follow (true ∷ bs) ((req, w, reply) ∷ xs) = (reply ≡ (route P state req w).0) × Follow bs xs
  Follow (false ∷ bs) ((req, w, reply) ∷ xs) = (reply ≡ refuse too_many_requests) × Follow bs xs

  module _ (req : Request) (s : Server P) where
    abbrev verdict : Bool × RateLimit.RateLimiter P.governor
    verdict = let c = call req s in RateLimit.check P.governor s.limiter c.key c.start c.now

    limiter-handle : (handle P state req s).1.limiter ≡ verdict.1
    unfolding handle track_metrics rate_limit
    limiter-handle = elim (Bool-cases verdict.0) [
      | inl admitted ↦ rw admitted refl
      | inr refused ↦ rw refused refl
    ]

    reply_admitted :
        verdict.0 ≡ true → (handle P state req s).0 ≡ (route P state req (admitted_world req s)).0
    unfolding handle track_metrics rate_limit
    reply_admitted admitted = rw admitted refl

    reply_refused : verdict.0 ≡ false → (handle P state req s).0 ≡ refuse too_many_requests
    unfolding handle track_metrics rate_limit
    reply_refused refused = rw refused refl

  exchanges-Follow :
      (k : String) (reqs : List Request) (s : Server P)
      → Follow (answers P.governor k s.limiter (calls reqs s)) (exchanges k reqs s)
  unfolding answers calls exchanges
  exchanges-Follow k [] s = tt
  exchanges-Follow k (req ∷ reqs) s =
      let rest = rw (limiter-handle req s) at (exchanges-Follow k reqs (handle P state req s).1) in
      elim (Bool-cases (str_eq (call req s).key k)) [
        | inl same ↦ elim (Bool-cases (verdict req s).0) [
          | inl admitted ↦ rw (same, admitted) (reply_admitted req s admitted, rest)
          | inr refused ↦ rw (same, refused) (reply_refused req s refused, rest)
        ]
        | inr other ↦ rw other rest
      ]

  module _ (B : AllowsBurst P.governor) where
    -- Of the requests that one client sends to a new server at one instant, as many as the
    -- allowance per minute, one if that is 0, get the answer of the routes, and all later ones 429,
    -- whatever other clients send in between; provided that `governor` allows the documented burst.
    pub exchanges-admit :
        (k : String) (t : P.governor.Instant) (per_minute : ℕ) (reqs : List Request) (s : Server P)
        → s.limiter ≡ RateLimit.new P.governor per_minute
        → AtInstant P.governor t (only P.governor k (calls reqs s))
        → Follow
            (admit
              (if ltb per_minute 1 then 1 else per_minute)
              (length (only P.governor k (calls reqs s))))
            (exchanges k reqs s)
    exchanges-admit k t per_minute reqs s fresh h =
        let verdicts =
          ap (λ rl. answers P.governor k rl (calls reqs s)) fresh
          ∙ answers-new P.governor B per_minute k t (calls reqs s) h in
        rw verdicts at (exchanges-Follow k reqs s)
