-- ===== src/Assertions.antt =====
-- What the tests of the repository are written with: a test is an action that may panic.
use rhel9_app_micro.Prelude.{Bool, true, false}
use rhel9_app_micro.Outcome.{Except, ok, err, Act, map_err}

-- A panic carries no value that the tests look at.
abbrev pub Checked : Type 0 → Type 0 → Type 0
Checked W A = Act (Unit {0}) W A

module _ {W : Type 0} where
  -- `assert!`
  abbrev pub assert : Bool → Checked W (Unit {0})
  assert true w = (ok tt, w)
  assert false w = (err tt, w)

  -- `Result::unwrap`
  abbrev pub unwrap : {E A : Type 0} → Act E W A → Checked W A
  unwrap m = map_err (λ e. tt) m

  abbrev pub result_is_err : {E A : Type 0} → Except E A × W → Except (Unit {0}) Bool × W
  result_is_err (ok a, w') = (ok false, w')
  result_is_err (err e, w') = (ok true, w')

  -- `Result::is_err`, of a call.
  abbrev pub is_err : {E A : Type 0} → Act E W A → Checked W Bool
  is_err m w = result_is_err (m w)
