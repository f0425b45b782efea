-- ===== src/RateLimit/Units.antt =====
-- The unit test of src/ratelimit.rs.
use rhel9_app_micro.Prelude.{String, Bool, true, false, not, ◌≡◌, [], ◌∷◌, arith}
use rhel9_app_micro.HashMap.{lookup, insert}
use rhel9_app_micro.Outcome.{Except, ok, ◌>>=◌, ◌>>◌}
use rhel9_app_micro.Assertions.{Checked, assert}
use rhel9_app_micro.RateLimit
use rhel9_app_micro.RateLimit.{Governor, RateLimiter}
use rhel9_app_micro.RateLimit.Burst.{AllowsBurst, drain, admit}

module _ (G : Governor) {W : Type 0} (clock : W → G.Instant × W) where
  -- A call of `check`, which reads the clock for a new limiter and for the check.
  abbrev check_now : String → Checked (RateLimiter G × W) Bool
  check_now key (rl, w) =
      let (start, w₁) = clock w in
      let (now, w₂) = clock w₁ in
      let (allowed, rl') = RateLimit.check G rl key start now in (ok allowed, (rl', w₂))

  -- `allows_up_to_limit_then_blocks`, behind `RateLimiter::new(3)`
  abbrev blocks_fourth : Checked (RateLimiter G × W) Unit
  blocks_fourth = do
    first ← check_now "a"
    assert first
    second ← check_now "a"
    assert second
    third ← check_now "a"
    assert third
    fourth ← check_now "a"
    assert (not fourth)
    other ← check_now "b"
    assert other

  unfoldable pub allows_up_to_limit_then_blocks : W → Except Unit Unit
  allows_up_to_limit_then_blocks w = (blocks_fourth (RateLimit.new G 3, w)).0

-- The test passes over every governor that allows the documented burst, where no time passes.
module _ (G : Governor) (B : AllowsBurst G) (t : G.Instant) where
  burst_of_three : drain G (G.direct_per_minute 3 t) t 4 ≡ true ∷ true ∷ true ∷ false ∷ []
  unfolding admit
  burst_of_three = B.burst 3 t 4 (omega arith)

  allows_up_to_limit_then_blocks-passes :
      allows_up_to_limit_then_blocks G (λ (u : Unit {0}). (t, u)) tt ≡ ok tt
  unfolding allows_up_to_limit_then_blocks RateLimit.check RateLimit.new lookup insert drain
  allows_up_to_limit_then_blocks-passes =
      let l₀ = G.direct_per_minute 3 t in
      let l₁ = (G.check l₀ t).1 in
      let l₂ = (G.check l₁ t).1 in
      let l₃ = (G.check l₂ t).1 in
      let first : (G.check l₀ t).0 ≡ true = cc burst_of_three in
      let second : (G.check l₁ t).0 ≡ true = cc burst_of_three in
      let third : (G.check l₂ t).0 ≡ true = cc burst_of_three in
      let fourth : (G.check l₃ t).0 ≡ false = cc burst_of_three in ground arith
