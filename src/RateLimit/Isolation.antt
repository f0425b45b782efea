-- ===== src/RateLimit/Isolation.antt =====
-- The keyed limiter behaves as one limiter for each key (src/ratelimit.rs, `check`).
use rhel9_app_micro.Prelude.{
  ℕ, String, Bool, true, false, ◌≡◌, refl, inl, inr, Option, some, List, [], ◌∷◌, str_eq, eq_iff,
  unwrap_or, if◌then◌else◌, Bool-cases,
}
use rhel9_app_micro.RateLimit.{Governor, RateLimiter, check}
use rhel9_app_micro.HashMap.{lookup, lookup-insert}

module _ (G : Governor) where
  -- A call of `check`: its key, and the two readings of the clock.
  pub record Call : Type 0 where
    pub key : String
    pub start : G.Instant
    pub now : G.Instant

  -- The calls for one key.
  abbrev pub only : String → List Call → List Call
  only k [] = []
  only k (c ∷ cs) = if str_eq c.key k then c ∷ only k cs else only k cs

  -- The answers that the calls for `k` get, in a run of all the calls.
  unfoldable pub answers : String → RateLimiter G → List Call → List Bool
  answers k rl [] = []
  answers k rl (c ∷ cs) =
      let (allowed, rl') = check G rl c.key c.start c.now in
      let rest = answers k rl' cs in if str_eq c.key k then allowed ∷ rest else rest

  -- The answers of one limiter of its own, made at the first call.
  unfoldable pub solo : ℕ → Option G.Limiter → List Call → List Bool
  solo n l [] = []
  solo n l (c ∷ cs) =
      let (allowed, l') = G.check (unwrap_or l (G.direct_per_minute n c.start)) c.now in
      allowed ∷ solo n (some l') cs

  module _ (k : String) (rl : RateLimiter G) (c : Call) where
    abbrev kept : Option G.Limiter
    kept = lookup k (check G rl c.key c.start c.now).1.buckets

    kept_other : str_eq c.key k ≡ false → kept ≡ lookup k rl.buckets
    unfolding check
    kept_other h = rw lookup-insert (rw h)

    abbrev own : Bool × G.Limiter
    own =
        G.check (unwrap_or (lookup k rl.buckets) (G.direct_per_minute rl.per_minute c.start)) c.now

    kept_self : str_eq c.key k ≡ true → kept ≡ some own.1
    unfolding check
    kept_self h = let same : c.key ≡ k = (eq_iff c.key k).0 h in rw lookup-insert (rw h (rw same))

    allowed_self : str_eq c.key k ≡ true → (check G rl c.key c.start c.now).0 ≡ own.0
    unfolding check
    allowed_self h = let same : c.key ≡ k = (eq_iff c.key k).0 h in rw same

    per_minute_kept : (check G rl c.key c.start c.now).1.per_minute ≡ rl.per_minute
    unfolding check
    per_minute_kept = refl

  -- The answers that one key gets, whatever calls for other keys come between, are those of a
  -- limiter of its own, made at its first call, which sees its calls alone.
  pub answers-eq-solo :
      (k : String) (rl : RateLimiter G) (cs : List Call)
      → answers k rl cs ≡ solo rl.per_minute (lookup k rl.buckets) (only k cs)
  unfolding answers solo
  answers-eq-solo k rl [] = refl
  answers-eq-solo k rl (c ∷ cs) = elim (Bool-cases (str_eq c.key k)) [
    | inl same ↦ rw (
      same,
      answers-eq-solo k (check G rl c.key c.start c.now).1 cs,
      allowed_self k rl c same,
      kept_self k rl c same,
      per_minute_kept k rl c,
    )
    | inr other ↦ rw (
      other,
      answers-eq-solo k (check G rl c.key c.start c.now).1 cs,
      kept_other k rl c other,
      per_minute_kept k rl c,
    )
  ]
