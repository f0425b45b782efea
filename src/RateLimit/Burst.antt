-- ===== src/RateLimit/Burst.antt =====
-- The burst that a new limiter allows each client (src/ratelimit.rs, `new` and `check`).
use rhel9_app_micro.Prelude.{
  ℕ, zero, suc, ◌≤◌, String, Bool, true, false, ◌≡◌, refl, ◌∙◌, some, none, List, [], ◌∷◌, arith,
  length, ltb, if◌then◌else◌,
}
use rhel9_app_micro.HashMap.{lookup}
use rhel9_app_micro.RateLimit.{Governor, new}
use rhel9_app_micro.RateLimit.Isolation.{Call, only, answers, solo, answers-eq-solo}

-- `m` requests, of which the first `n` are admitted.
unfoldable pub admit : ℕ → ℕ → List Bool
admit n zero = []
admit zero (suc m) = false ∷ admit zero m
admit (suc n) (suc m) = true ∷ admit n m

module _ (G : Governor) where
  -- The answers of `m` checks of one limiter at one instant.
  unfoldable pub drain : G.Limiter → G.Instant → ℕ → List Bool
  drain l t zero = []
  drain l t (suc m) = let (allowed, l') = G.check l t in allowed ∷ drain l' t m

  -- What `Quota::per_minute` documents: a burst of `n` cells at once, and none more before time
  -- has passed.
  pub record AllowsBurst : Type 0 where
    pub burst :
        (n : ℕ) (t : G.Instant) (m : ℕ) → 1 ≤ n → drain (G.direct_per_minute n t) t m ≡ admit n m

  -- The calls are made at the instant `t`.
  abbrev pub AtInstant : G.Instant → List (Call G) → Type 0
  AtInstant t [] = Unit
  AtInstant t (c ∷ cs) = (c.start ≡ t) × (c.now ≡ t) × AtInstant t cs

  solo-eq-drain :
      (n : ℕ) (l : G.Limiter) (t : G.Instant) (cs : List (Call G))
      → AtInstant t cs
      → solo G n (some l) cs ≡ drain l t (length cs)
  unfolding solo drain
  solo-eq-drain n l t [] h = refl
  solo-eq-drain n l t (c ∷ cs) h = rw (h.1, solo-eq-drain n (G.check l t).1 t cs h.2)

  solo_new :
      (n : ℕ) (t : G.Instant) (cs : List (Call G))
      → AtInstant t cs
      → solo G n none cs ≡ drain (G.direct_per_minute n t) t (length cs)
  unfolding solo drain
  solo_new n t [] h = refl
  solo_new n t (c ∷ cs) h =
      rw (h.0, h.1, solo-eq-drain n (G.check (G.direct_per_minute n t) t).1 t cs h.2)

  per_minute-new : (n : ℕ) → 1 ≤ (new G n).per_minute
  unfolding new
  per_minute-new n = ground arith

  lookup-new : (n : ℕ) (k : String) → lookup k (new G n).buckets ≡ none
  unfolding new lookup
  lookup-new n k = refl

  module _ (B : AllowsBurst) where
    -- Of the requests of one client at one instant, a new limiter admits as many as the allowance
    -- per minute, one if that is 0, and refuses the rest, whatever other clients send in between;
    -- provided that `governor` allows the documented burst.
    pub answers-new :
        (per_minute : ℕ) (k : String) (t : G.Instant) (cs : List (Call G))
        → AtInstant t (only G k cs)
        → answers G k (new G per_minute) cs
          ≡ admit (if ltb per_minute 1 then 1 else per_minute) (length (only G k cs))
    answers-new per_minute k t cs h =
        answers-eq-solo G k (new G per_minute) cs
        ∙ rw (lookup-new per_minute k) (
            solo_new (new G per_minute).per_minute t (only G k cs) h
            ∙ B.burst (new G per_minute).per_minute t (length (only G k cs))
                (per_minute-new per_minute)
            ∙ (unfold new in refl))
