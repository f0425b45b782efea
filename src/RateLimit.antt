-- ===== src/RateLimit.antt =====
-- src/ratelimit.rs: one token bucket for each client key, over the crate `governor`.
pub mod Isolation
pub mod Burst
pub mod Units
pub mod Tests
use rhel9_app_micro.Prelude.{ℕ, String, Bool, List, [], ltb, unwrap_or, if◌then◌else◌}
use rhel9_app_micro.HashMap.{Map, lookup, insert}

-- The crate `governor`, as far as the program uses it.
pub record Governor : Type 1 where
  -- `DirectLimiter`
  pub Limiter : Type 0
  -- A reading of `DefaultClock`.
  pub Instant : Type 0
  -- `GovLimiter::direct_with_clock(Quota::per_minute(n), clock)`; it reads the clock.
  pub direct_per_minute : ℕ → Instant → Limiter
  -- `limiter.check().is_ok()`; it reads the clock and updates the limiter in place.
  pub check : Limiter → Instant → Bool × Limiter

module _ (G : Governor) where
  -- The clock holds no state of the program: its readings are arguments of `check`.
  pub record RateLimiter : Type 0 where
    pub per_minute : ℕ
    pub buckets : Map G.Limiter

  -- `RateLimiter::new`, with `per_minute.max(1)`.
  unfoldable pub new : ℕ → RateLimiter
  new per_minute = record { per_minute = if ltb per_minute 1 then 1 else per_minute; buckets = [] }

  -- `RateLimiter::check`: `start` is the clock's reading where a limiter is made, `now` the one
  -- of the limiter's own check. The mutex makes the call one step.
  unfoldable pub check : RateLimiter → String → G.Instant → G.Instant → Bool × RateLimiter
  check rl key start now =
      let limiter = unwrap_or (lookup key rl.buckets) (G.direct_per_minute rl.per_minute start) in
      let (allowed, limiter') = G.check limiter now in
      (allowed, record rl { buckets = insert key limiter' rl.buckets })
