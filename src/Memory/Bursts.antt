-- ===== src/Memory/Bursts.antt =====
-- Many requests of one client over the in-memory platform, in which no time passes.
use rhel9_app_micro.Prelude.{◌≡◌, refl, none, List, [], ◌∷◌, map, true, false}
use rhel9_app_micro.Errors.{error_response, parts}
use rhel9_app_micro.HashMap.{lookup, insert}
use rhel9_app_micro.RateLimit
use rhel9_app_micro.RateLimit.Isolation.{only}
use rhel9_app_micro.RateLimit.Burst.{AtInstant, admit}
use rhel9_app_micro.RateLimit.Tests.{bucket-AllowsBurst}
use rhel9_app_micro.Observe.{Server, client_key, anonymous_key, rate_limit, track_metrics}
use rhel9_app_micro.Api.{Request, healthz, metrics, handle, route, answer}
use rhel9_app_micro.Api.Burst.{calls, exchanges, Exchange, Follow, exchanges-admit}
use rhel9_app_micro.Memory.{memory}
use rhel9_app_micro.Memory.Interleavings.{state, disk}

abbrev probe : Request
probe = record { headers = λ name. none; endpoint = healthz }

abbrev probes : List Request
probes = probe ∷ record probe { endpoint = metrics } ∷ probe ∷ []

-- A server with an allowance of two.
abbrev server : Server memory
server = record {
  limiter = RateLimit.new memory.governor 2;
  counted = [];
  latencies = [];
  world = disk;
}

-- The third probe is refused.
third_refused :
    map (λ (x : Exchange memory state). x.2.0) (exchanges memory state "ip:anonymous" probes server)
    ≡ 200 ∷ 200 ∷ 429 ∷ []
unfolding exchanges handle track_metrics rate_limit route answer client_key anonymous_key
    RateLimit.check RateLimit.new lookup insert error_response parts
third_refused = refl

at_once :
    AtInstant memory.governor tt
      (only memory.governor "ip:anonymous" (calls memory state probes server))
unfolding calls client_key anonymous_key handle
at_once = (refl, refl, (refl, refl, (refl, refl, tt)))

exchanges-admit_example :
    Follow memory state
      (true ∷ true ∷ false ∷ [])
      (exchanges memory state "ip:anonymous" probes server)
unfolding admit calls client_key anonymous_key handle
exchanges-admit_example =
    exchanges-admit memory state bucket-AllowsBurst "ip:anonymous" tt 2 probes server refl at_once
