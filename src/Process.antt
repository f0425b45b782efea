-- ===== src/Process.antt =====
-- A computation as a sequence of atomic steps on a shared world, between which other computations
-- may run. A request is served by an async task; what it does to shared state it does in calls that
-- are atomic each: a statement of SQLite, a call under the mutex, an increment of a counter.
pub mod Alone
pub mod Promises
pub mod Leaves
use rhel9_app_micro.Prelude.{ℕ, zero, suc, List, [], ◌∷◌}
use rhel9_app_micro.Outcome.{Except, ok, err, Act}

-- `step effect next`: the world is changed by `effect`, and what comes next depends on the world
-- that was found.
pub data Process (E W A : Type 0) : Type 0 where
  finish : Except E A → Process E W A
  step : (W → W) → (W → Process E W A) → Process E W A

module _ {E W A : Type 0} where
  -- An action as one step.
  abbrev pub atom : Act E W A → Process E W A
  atom m = step (λ w. (m w).1) (λ w. finish (m w).0)

  -- The process run with nothing in between.
  unfoldable pub run_alone : Process E W A → Act E W A
  run_alone (finish r) w = (r, w)
  run_alone (step effect next) w = run_alone (next w) (effect w)

module _ {E W A B : Type 0} where
  infixl 5 ◌>>=◌ ◌>>◌
  unfoldable pub ◌>>=◌ : Process E W A → (A → Process E W B) → Process E W B
  finish (ok a) >>= k = k a
  finish (err e) >>= k = finish (err e)
  step effect next >>= k = step effect (λ w. next w >>= k)

  abbrev pub ◌>>◌ : Process E W A → Process E W B → Process E W B
  p >> q = p >>= λ _. q

module _ {E W A : Type 0} where
  -- One step of the process with the given number, if it has not finished.
  unfoldable pub advance : ℕ → List (Process E W A) → W → List (Process E W A) × W
  advance n [] w = ([], w)
  advance zero (finish r ∷ ps) w = (finish r ∷ ps, w)
  advance zero (step effect next ∷ ps) w = (next w ∷ ps, effect w)
  advance (suc n) (p ∷ ps) w = let (qs, w') = advance n ps w in (p ∷ qs, w')

  -- Processes run together: the schedule says whose step is next.
  unfoldable pub interleave : List ℕ → List (Process E W A) → W → List (Process E W A) × W
  interleave [] ps w = (ps, w)
  interleave (n ∷ schedule) ps w = let (qs, w') = advance n ps w in interleave schedule qs w'
