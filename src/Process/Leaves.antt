-- ===== src/Process/Leaves.antt =====
-- What is true of the shared world when a process has returned, whatever others do meanwhile.
use rhel9_app_micro.Prelude.{ℕ, zero, suc, ◌≡◌, refl, List, [], ◌∷◌}
use rhel9_app_micro.Outcome.{Except, ok, err, Act}
use rhel9_app_micro.Process.{Process, finish, step, atom, ◌>>=◌, advance, interleave}

-- `R` says how the world may have moved between two steps of the process, and in a step of it.
module _ {E W : Type 0} (R : W → W → Type 0) where
  -- From here on, each step moves the world by `R`, and `Q` is true of what is returned.
  unfoldable pub Leaves : {A : Type 0} → (A → W → Type 0) → Process E W A → W → Type 0
  Leaves Q (finish (ok a)) w = Q a w
  Leaves Q (finish (err e)) w = Unit
  Leaves Q (step effect next) w =
      (w' : W) → R w w' → R w' (effect w') × Leaves Q (next w') (effect w')

  pub Leaves-then :
      {A B : Type 0} (Q : A → W → Type 0) (S : B → W → Type 0) (p : Process E W A)
      (k : A → Process E W B) (w : W)
      → Leaves Q p w
      → ((a : A) (w' : W) → Q a w' → Leaves S (k a) w')
      → Leaves S (p >>= k) w
  unfolding ◌>>=◌ Leaves
  Leaves-then Q S (finish (ok a)) k w h rest = rest a w h
  Leaves-then Q S (finish (err e)) k w h rest = tt
  Leaves-then Q S (step effect next) k w h rest =
      λ w' r. ((h w' r).0, Leaves-then Q S (next w') k (effect w') (h w' r).1 rest)

  -- A step, and what its result says of the world that it left.
  pub Leaves-atom :
      {A B : Type 0} (S : B → W → Type 0) (m : Act E W A) (k : A → Process E W B) (w : W)
      → ((w₁ : W) → R w₁ (m w₁).1)
      → ((a : A) (w₁ w₂ : W) → m w₁ ≡ (ok a, w₂) → Leaves S (k a) w₂)
      → Leaves S (atom m >>= k) w
  unfolding ◌>>=◌ Leaves
  Leaves-atom S m k w moves h w' r = (moves w', go (m w') refl)
    where
      go : (o : Except E _ × W) → m w' ≡ o → Leaves S (finish o.0 >>= k) o.1
      go (ok a, w₂) e = h a w' w₂ e
      go (err x, w₂) e = tt

  -- Requests of a kind `X`, each with its process and its `Q`.
  module _ {X A : Type 0} (Q : X → A → W → Type 0) where
    abbrev pub LeavesAll : List X → List (Process E W A) → W → Type 0
    LeavesAll [] [] w = Unit
    LeavesAll [] (p ∷ ps) w = ⊥
    LeavesAll (x ∷ xs) [] w = ⊥
    LeavesAll (x ∷ xs) (p ∷ ps) w = Leaves (Q x) p w × LeavesAll xs ps w

  module _ {X A : Type 0} (Q : X → A → W → Type 0) (trans : (u v w : W) → R u v → R v w → R u w)
      (stable : (x : X) (a : A) (v w : W) → R v w → Q x a v → Q x a w) where
    Leaves-later :
        (x : X) (p : Process E W A) (v w : W) → R v w → Leaves (Q x) p v → Leaves (Q x) p w
    unfolding Leaves
    Leaves-later x (finish (ok a)) v w r h = stable x a v w r h
    Leaves-later x (finish (err e)) v w r h = tt
    Leaves-later x (step effect next) v w r h = λ w' r'. h w' (trans v w w' r r')

    LeavesAll-later :
        (xs : List X) (ps : List (Process E W A)) (v w : W)
        → R v w
        → LeavesAll Q xs ps v
        → LeavesAll Q xs ps w
    LeavesAll-later [] [] v w r h = tt
    LeavesAll-later [] (p ∷ ps) v w r h = h
    LeavesAll-later (x ∷ xs) [] v w r h = h
    LeavesAll-later (x ∷ xs) (p ∷ ps) v w r h =
        (Leaves-later x p v w r h.0, LeavesAll-later xs ps v w r h.1)

    module _ (reflexive : (w : W) → R w w) where
      advance-Leaves :
          (n : ℕ) (xs : List X) (ps : List (Process E W A)) (w : W)
          → LeavesAll Q xs ps w
          → R w (advance n ps w).1 × LeavesAll Q xs (advance n ps w).0 (advance n ps w).1
      unfolding advance Leaves
      advance-Leaves n [] [] w h = (reflexive w, tt)
      advance-Leaves n [] (p ∷ ps) w h = absurd h
      advance-Leaves n (x ∷ xs) [] w h = absurd h
      advance-Leaves zero (x ∷ xs) (finish r ∷ ps) w h = (reflexive w, h)
      advance-Leaves zero (x ∷ xs) (step effect next ∷ ps) w h =
          let now = h.0 w (reflexive w) in
          (now.0, (now.1, LeavesAll-later xs ps w (effect w) now.0 h.1))
      advance-Leaves (suc n) (x ∷ xs) (p ∷ ps) w h =
          let rest = advance-Leaves n xs ps w h.1 in
          (rest.0, (Leaves-later x p w _ rest.0 h.0, rest.1))

      -- What each process promises of its result, all keep while they run together.
      pub interleave-Leaves :
          (schedule : List ℕ) (xs : List X) (ps : List (Process E W A)) (w : W)
          → LeavesAll Q xs ps w
          → LeavesAll Q xs (interleave schedule ps w).0 (interleave schedule ps w).1
      unfolding interleave
      interleave-Leaves [] xs ps w h = h
      interleave-Leaves (n ∷ schedule) xs ps w h =
          interleave-Leaves schedule xs (advance n ps w).0 (advance n ps w).1
            (advance-Leaves n xs ps w h).1
