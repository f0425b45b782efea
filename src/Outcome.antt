-- ===== src/Outcome.antt =====
-- Results and effects. `Except E A` is Rust's `Result<A, E>`; an `Act E W A` is a computation over
-- the outside world `W` that returns or stops early with `?`. What was written before an early
-- return stays written, so the world comes back beside the error too.
use rhel9_app_micro.Prelude.{Option, none, some, ◌≡◌, refl, ◌⊎◌, inl, inr}

pub data Except (E A : Type 0) : Type 0 where
  ok : A → Except E A
  err : E → Except E A

pub Except-cases :
    {E A : Type 0} (r : Except E A) → ((a : A) × (r ≡ ok a)) ⊎ ((e : E) × (r ≡ err e))
Except-cases (ok a) = inl (a, refl)
Except-cases (err e) = inr (e, refl)

abbrev pub Act : Type 0 → Type 0 → Type 0 → Type 0
Act E W A = W → Except E A × W

module _ {E W A : Type 0} where
  abbrev pub pure : A → Act E W A
  pure a w = (ok a, w)

  abbrev pub raise : E → Act E W A
  raise e w = (err e, w)

  -- A value that is already a `Result`, under `?`.
  abbrev pub lift : Except E A → Act E W A
  lift r w = (r, w)

  -- An effect that cannot fail.
  abbrev pub run : (W → A × W) → Act E W A
  run f w = let (a, w') = f w in (ok a, w')

  -- Rust's `Option::ok_or_else`, under `?`.
  abbrev pub ok_or : Option A → E → Act E W A
  ok_or none e w = (err e, w)
  ok_or (some a) e w = (ok a, w)

module _ {E F W A : Type 0} where
  abbrev pub map_err_result : (E → F) → Except E A × W → Except F A × W
  map_err_result f (ok a, w) = (ok a, w)
  map_err_result f (err e, w) = (err (f e), w)

  -- Rust's `map_err`, and the conversion that `?` makes by `From`.
  abbrev pub map_err : (E → F) → Act E W A → Act F W A
  map_err f m w = map_err_result f (m w)

  pub map_err-ensures :
      (f : E → F) (m : Act E W A) (w : W) (Q : Except E A × W → Type 0)
      (R : Except F A × W → Type 0)
      → Q (m w)
      → ((a : A) (w' : W) → Q (ok a, w') → R (ok a, w'))
      → ((e : E) (w' : W) → Q (err e, w') → R (err (f e), w'))
      → R (map_err f m w)
  map_err-ensures f m w Q R h good bad = go (m w) h
    where
      go : (r : Except E A × W) → Q r → R (map_err_result f r)
      go (ok a, w') q = good a w' q
      go (err e, w') q = bad e w' q

module _ {E W A B : Type 0} where
  abbrev pub continue : (A → Act E W B) → Except E A × W → Except E B × W
  continue f (ok a, w) = f a w
  continue f (err e, w) = (err e, w)

  infixl 5 ◌>>=◌ ◌>>◌
  abbrev pub ◌>>=◌ : Act E W A → (A → Act E W B) → Act E W B
  ◌>>=◌ m f w = continue f (m w)

  abbrev pub ◌>>◌ : Act E W A → Act E W B → Act E W B
  m >> k = m >>= λ _. k

  -- The rule for a step of a `do` block: what is known of the step's outcome, and what the rest
  -- makes of it, on both ways out.
  pub bind-ensures :
      (m : Act E W A) (f : A → Act E W B) (w : W) (Q : Except E A × W → Type 0)
      (R : Except E B × W → Type 0)
      → Q (m w)
      → ((a : A) (w' : W) → Q (ok a, w') → R (f a w'))
      → ((e : E) (w' : W) → Q (err e, w') → R (err e, w'))
      → R ((m >>= f) w)
  bind-ensures m f w Q R h good bad = go (m w) h
    where
      go : (r : Except E A × W) → Q r → R (continue f r)
      go (ok a, w') q = good a w' q
      go (err e, w') q = bad e w' q

-- The result is not an error.
abbrev pub IsOk : {E A : Type 0} → Except E A → Type 0
IsOk (ok a) = Unit
IsOk (err e) = ⊥

module _ {E F W A : Type 0} where
  pub map_err-IsOk : (f : E → F) (m : Act E W A) (w : W) → IsOk (m w).0 → IsOk (map_err f m w).0
  map_err-IsOk f m w h =
      map_err-ensures f m w (λ r. IsOk r.0) (λ r. IsOk r.0) h (λ a w' k. k) (λ e w' k. absurd k)

  -- A step that succeeds with a known value does so under `map_err`.
  pub map_err-ok :
      (f : E → F) (m : Act E W A) (w : W) (a : A) → (m w).0 ≡ ok a → (map_err f m w).0 ≡ ok a
  map_err-ok f m w a h =
      map_err-ensures f m w (λ r. r.0 ≡ ok a) (λ r. r.0 ≡ ok a) h (λ b w' k. cc) (λ e w' k. cc)

module _ {E W A B : Type 0} where
  -- A step that succeeds, and what it leaves for the rest.
  pub bind-IsOk :
      (m : Act E W A) (f : A → Act E W B) (w : W) (Q : Except E A × W → Type 0)
      → Q (m w)
      → IsOk (m w).0
      → ((a : A) (w' : W) → Q (ok a, w') → IsOk (f a w').0)
      → IsOk ((m >>= f) w).0
  bind-IsOk m f w Q q h rest =
      bind-ensures m f w (λ r. Q r × IsOk r.0) (λ r. IsOk r.0) (q, h) (λ a w' k. rest a w' k.0)
        (λ e w' k. absurd k.1)
