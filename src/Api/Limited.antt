-- ===== src/Api/Limited.antt =====
-- A request that the rate limit refuses (src/observe.rs, `rate_limit`, around the routes).
use rhel9_app_micro.Prelude.{◌≡◌, refl, Bool, false}
use rhel9_app_micro.Errors.{too_many_requests}
use rhel9_app_micro.Platform.{Platform}
use rhel9_app_micro.RateLimit
use rhel9_app_micro.Observe.{Server, client_key, rate_limit, track_metrics}
use rhel9_app_micro.Db.Lawful.{Tables, Same, IsLawful}
use rhel9_app_micro.Db.Reads.{Same-trans}
use rhel9_app_micro.Handlers.{AppState}
use rhel9_app_micro.Api.{Request, refuse, started_world, handle}
use rhel9_app_micro.Api.Answers.{client_key-Same}

module _ (P : Platform) (state : AppState) (req : Request) (s : Server P) where
  -- The world after the key has been found, and the verdict on that key.
  abbrev pub keyed_world : P.World
  keyed_world = (client_key P state.config req.headers (started_world P s)).1

  abbrev pub admits : Bool
  admits =
      (RateLimit.check P.governor s.limiter
        (client_key P state.config req.headers (started_world P s)).0 (P.instant_now keyed_world).0
        (P.instant_now (P.instant_now keyed_world).1).0).0

module _ (P : Platform) (T : Tables P) (L : IsLawful P T) where
  -- Over a lawful database, a request that the limiter refuses under its client's key is answered
  -- by 429, whatever it asks for, and changes neither table.
  pub handle_refused :
      (state : AppState) (req : Request) (s : Server P)
      → admits P state req s ≡ false
      → ((handle P state req s).0 ≡ refuse too_many_requests)
        × Same P T s.world (handle P state req s).1.world
  unfolding handle track_metrics rate_limit
  handle_refused state req s refused =
      let (start, w) = P.monotonic_now s.world in
      let w₁ = keyed_world P state req s in
      let w₂ = (P.instant_now w₁).1 in
      let w₃ = (P.instant_now w₂).1 in
      let keyed = Same-trans P T (L.monotonic_now s.world) (
        Same-trans P T (client_key-Same P T L state req.headers w) (
          Same-trans P T (L.instant_now w₁)
            (Same-trans P T (L.instant_now w₂) (L.elapsed start w₃)))) in
      rw refused (refl, keyed)
