-- ===== src/RateLimit/Tests.antt =====
-- Runs of the rate limiter over a bucket that never refills.
use rhel9_app_micro.Prelude.{ℕ, zero, suc, String, ◌≡◌, refl, ap, true, false, List, [], ◌∷◌, Bool}
use rhel9_app_micro.HashMap.{lookup, insert}
use rhel9_app_micro.RateLimit.{Governor, new, check}
use rhel9_app_micro.Outcome.{ok}
use rhel9_app_micro.RateLimit.Units.{allows_up_to_limit_then_blocks}
use rhel9_app_micro.RateLimit.Isolation.{Call, only, answers, solo, answers-eq-solo}
use rhel9_app_micro.RateLimit.Burst.{admit, drain, AllowsBurst}

-- The instants are all alike: no time passes.
abbrev pub take_one : ℕ → Unit {0} → Bool × ℕ
take_one zero t = (false, 0)
take_one (suc n) t = (true, n)

abbrev pub bucket : Governor
bucket = record { Limiter = ℕ; Instant = Unit; direct_per_minute = λ n t. n; check = take_one }

drain-bucket : (n : ℕ) (m : ℕ) → drain bucket n tt m ≡ admit n m
unfolding drain admit
drain-bucket n zero = refl
drain-bucket zero (suc m) = ap (λ l. false ∷ l) (drain-bucket zero m)
drain-bucket (suc n) (suc m) = ap (λ l. true ∷ l) (drain-bucket n m)

pub bucket-AllowsBurst : AllowsBurst bucket
bucket-AllowsBurst = record { burst = λ n t m h. drain-bucket n m }

abbrev call : String → Call bucket
call k = record { key = k; start = tt; now = tt }

abbrev calls : List (Call bucket)
calls = call "a" ∷ call "a" ∷ call "b" ∷ call "a" ∷ call "a" ∷ []

-- The unit test of src/ratelimit.rs passes, where no time passes between its calls.
unit_test_passes : allows_up_to_limit_then_blocks bucket (λ (u : Unit {0}). (tt, u)) tt ≡ ok tt
unfolding allows_up_to_limit_then_blocks check new lookup insert
unit_test_passes = refl

answers-eq-solo_example :
    answers bucket "b" (new bucket 3) calls
    ≡ solo bucket 3 (lookup "b" (new bucket 3).buckets) (only bucket "b" calls)
unfolding new
answers-eq-solo_example = answers-eq-solo bucket "b" (new bucket 3) calls
