-- ===== src/Observe.antt =====
-- src/observe.rs: the rate-limit key of a request, and the two middlewares around the handlers.
pub mod Keys
use rhel9_app_micro.Prelude.{
  ℕ, String, ◌<>◌, Bool, true, false, Option, none, some, List, [], ◌∷◌, ◌++◌, unwrap_or,
  if◌then◌else◌,
}
use rhel9_app_micro.Outcome.{Except, ok, err}
use rhel9_app_micro.Text.{is_empty, trim, split_first}
use rhel9_app_micro.Errors.{AppError, too_many_requests}
use rhel9_app_micro.Config.{Config}
use rhel9_app_micro.RateLimit
use rhel9_app_micro.RateLimit.{RateLimiter}
use rhel9_app_micro.Platform.{Platform, Claims}
use rhel9_app_micro.Auth.{decode_token}
use rhel9_app_micro.Extract.{HeaderValue, Headers, to_str, or_else, strip_bearer}

-- The token of an `Authorization` header, as `client_key` finds it.
abbrev pub header_token : Option HeaderValue → Option String
header_token none = none
header_token (some h) = elim (to_str h) [ none ↦ none | some value ↦ strip_bearer value ]

-- One round of the loop over the address headers.
abbrev pub address_key : Option HeaderValue → Option String
address_key none = none
address_key (some h) = elim (to_str h) [
  | none ↦ none
  | some s ↦ let ip = trim (split_first b',' s) in if is_empty ip then none else some ("ip:" <> ip)
]

-- The loop, and the shared key behind it.
unfoldable pub anonymous_key : Headers → String
anonymous_key headers =
    unwrap_or
      (or_else (address_key (headers "x-forwarded-for")) (address_key (headers "x-real-ip")))
      "ip:anonymous"

module _ (P : Platform) where
  abbrev pub decoded_key : Headers → Except AppError Claims × P.World → String × P.World
  decoded_key headers (ok claims, w) = ("sub:" <> claims.sub, w)
  decoded_key headers (err e, w) = (anonymous_key headers, w)

  abbrev pub token_key : Config → Headers → Option String → P.World → String × P.World
  token_key config headers none w = (anonymous_key headers, w)
  token_key config headers (some tok) w =
      decoded_key headers (decode_token P config.jwt_secret (trim tok) w)

  -- `client_key`
  unfoldable pub client_key : Config → Headers → P.World → String × P.World
  client_key config headers w = token_key config headers (header_token (headers "authorization")) w

  -- What the middlewares share between requests: the limiter, behind its mutex, the counter
  -- `http_requests_total`, as the list of the labels (method, path, status) that it was
  -- incremented for, and the histogram `http_request_duration_seconds`, as the list of what was
  -- recorded, each value with its labels (method, path).
  pub record Server : Type 0 where
    pub limiter : RateLimiter P.governor
    pub counted : List (String × String × ℕ)
    pub latencies : List (String × String × P.Seconds)
    pub world : P.World

  -- `rate_limit`, around the rest of the service, `next`.
  unfoldable pub rate_limit :
      {R : Type 0}
      → Config
      → Headers
      → (AppError → R)
      → (P.World → R × P.World)
      → Server
      → R × Server
  rate_limit config headers refuse next s =
      let (key, w₁) = client_key config headers s.world in
      let (start, w₂) = P.instant_now w₁ in
      let (now, w₃) = P.instant_now w₂ in
      let (allowed, limiter) = RateLimit.check P.governor s.limiter key start now in
      let (reply, w₄) = next w₃ in
      if allowed
      then (reply, record s { limiter = limiter; world = w₄ })
      else (refuse too_many_requests, record s { limiter = limiter; world = w₃ })

  -- `track_metrics`, around `next`; `path` is the matched route's template, or else the path.
  unfoldable pub track_metrics :
      {R : Type 0} → String → String → (R → ℕ) → (Server → R × Server) → Server → R × Server
  track_metrics method path status next s =
      let (start, w) = P.monotonic_now s.world in
      let (reply, s') = next (record s { world = w }) in
      let (latency, w') = P.elapsed start s'.world in
      (
        reply,
        record s' {
          counted = s'.counted ++ (method, path, status reply) ∷ [];
          latencies = s'.latencies ++ (method, path, latency) ∷ [];
          world = w';
        },
      )
