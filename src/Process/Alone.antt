-- ===== src/Process/Alone.antt =====
-- A process run alone does what the actions it is made of do.
use rhel9_app_micro.Prelude.{Bool, true, false, if◌then◌else◌, ◌≡◌, refl, ◌∙◌}
use rhel9_app_micro.Outcome
use rhel9_app_micro.Outcome.{Except, ok, err, Act, continue, pure, raise}
use rhel9_app_micro.Process.{Process, finish, step, atom, run_alone, ◌>>=◌}

module _ {E W A B : Type 0} where
  pub run_alone-bind :
      (p : Process E W A) (k : A → Process E W B) (w : W)
      → run_alone (p >>= k) w ≡ continue (λ a. run_alone (k a)) (run_alone p w)
  unfolding run_alone ◌>>=◌
  run_alone-bind (finish (ok a)) k w = refl
  run_alone-bind (finish (err e)) k w = refl
  run_alone-bind (step effect next) k w = run_alone-bind (next w) k (effect w)

-- The process, run alone, does what the action does.
pub record Performs {E W A : Type 0} (p : Process E W A) (m : Act E W A) : Type 0 where
  pub alone : (w : W) → run_alone p w ≡ m w

module _ {E W A : Type 0} where
  pub atom-Performs : (m : Act E W A) → Performs (atom m) m
  unfolding run_alone
  atom-Performs m = record { alone = λ w. refl }

  pub ok-Performs : (a : A) → Performs {E = E} {W = W} (finish (ok a)) (pure a)
  unfolding run_alone
  ok-Performs a = record { alone = λ w. refl }

  pub err-Performs : (e : E) → Performs {E = E} {W = W} {A = A} (finish (err e)) (raise e)
  unfolding run_alone
  err-Performs e = record { alone = λ w. refl }

  pub if-Performs :
      (b : Bool) {p q : Process E W A} {m n : Act E W A}
      → Performs p m
      → Performs q n
      → Performs (if b then p else q) (if b then m else n)
  if-Performs true h k = h
  if-Performs false h k = k

module _ {E W A B : Type 0} where
  pub bind-Performs :
      {p : Process E W A} {m : Act E W A} (k : A → Process E W B) (f : A → Act E W B)
      → Performs p m
      → ((a : A) → Performs (k a) (f a))
      → Performs (p >>= k) (Outcome.◌>>=◌ m f)
  bind-Performs {p} {m} k f h rest = record {
    alone = λ w. run_alone-bind p k w ∙ rw (h.alone w) (go (m w));
  }
    where
      go : (r : Except E A × W) → continue (λ a. run_alone (k a)) r ≡ continue f r
      go (ok a, w') = (rest a).alone w'
      go (err e, w') = refl
