-- ===== src/Process/Promises.antt =====
-- What a process keeps of the shared world, whatever runs in between, and what it returns.
use rhel9_app_micro.Prelude.{ℕ, zero, suc, List, [], ◌∷◌, All}
use rhel9_app_micro.Outcome.{Except, ok, err}
use rhel9_app_micro.Process.{Process, finish, step, ◌>>=◌, advance, interleave}

module _ {E W : Type 0} (I : W → Type 0) where
  -- Each step, from any world with the invariant, keeps it; the result is as `Q` says. What the
  -- process has learnt in a step it may use later, where it says nothing of the world.
  abbrev pub Promises : {A : Type 0} → (Except E A → Type 0) → Process E W A → Type 0
  Promises Q (finish r) = Q r
  Promises Q (step effect next) = (w : W) → I w → I (effect w) × Promises Q (next w)

  -- The invariant is kept, whatever is returned.
  abbrev pub Keeps : {A : Type 0} → Process E W A → Type 0
  Keeps p = Promises (λ r. Unit {0}) p

  pub Promises-then :
      {A B : Type 0} (Q : Except E A → Type 0) (R : Except E B → Type 0) (p : Process E W A)
      (k : A → Process E W B)
      → Promises Q p
      → ((a : A) → Q (ok a) → Promises R (k a))
      → ((e : E) → Q (err e) → R (err e))
      → Promises R (p >>= k)
  unfolding ◌>>=◌
  Promises-then Q R (finish (ok a)) k h good bad = good a h
  Promises-then Q R (finish (err e)) k h good bad = bad e h
  Promises-then Q R (step effect next) k h good bad =
      λ w i. ((h w i).0, Promises-then Q R (next w) k (h w i).1 good bad)

  -- A step whose result says nothing.
  pub Keeps-then :
      {A B : Type 0} (p : Process E W A) (k : A → Process E W B)
      → Keeps p
      → ((a : A) → Keeps (k a))
      → Keeps (p >>= k)
  Keeps-then p k h rest = Promises-then (λ r. Unit) (λ r. Unit) p k h (λ a q. rest a) (λ e q. tt)

  module _ {A : Type 0} where
    advance-Keeps :
        (n : ℕ) (ps : List (Process E W A)) (w : W)
        → All (λ p. Keeps p) ps
        → I w
        → All (λ p. Keeps p) (advance n ps w).0 × I (advance n ps w).1
    unfolding advance
    advance-Keeps n [] w h i = (tt, i)
    advance-Keeps zero (finish r ∷ ps) w h i = (h, i)
    advance-Keeps zero (step effect next ∷ ps) w h i = (((h.0 w i).1, h.1), (h.0 w i).0)
    advance-Keeps (suc n) (p ∷ ps) w h i =
        let rest = advance-Keeps n ps w h.1 i in ((h.0, rest.0), rest.1)

    -- Processes that each keep an invariant keep it together, in every order of their steps.
    pub interleave-Keeps :
        (schedule : List ℕ) (ps : List (Process E W A)) (w : W)
        → All (λ p. Keeps p) ps
        → I w
        → I (interleave schedule ps w).1
    unfolding interleave
    interleave-Keeps [] ps w h i = i
    interleave-Keeps (n ∷ schedule) ps w h i =
        let (qs, w') = advance n ps w in
        let one = advance-Keeps n ps w h i in interleave-Keeps schedule qs w' one.0 one.1
