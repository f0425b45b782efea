-- ===== src/Text/Decimal.antt =====
-- Rust's `to_string` of an integer, in decimal.
use Prim.Native.Nat.{◌/◌, ◌%◌}
use rhel9_app_micro.Prelude.{ℕ, zero, suc, ◌+◌, String, ◌<>◌, ◌≡◌, refl, ◌==◌, if◌then◌else◌}
use rhel9_app_micro.Prelude.Int.{ℤ, pos, negsuc}

abbrev pub digit : ℕ → String
digit d =
    if d == 0
    then "0"
    else if d == 1
    then "1"
    else if d == 2
    then "2"
    else if d == 3
    then "3"
    else if d == 4
    then "4"
    else if d == 5
    then "5"
    else if d == 6
    then "6"
    else if d == 7
    then "7"
    else if d == 8
    then "8"
    else "9"

-- The digits of `n` in front of `out`; `n` itself is fuel enough, since `n / 10 < n`.
unfoldable pub emit : ℕ → ℕ → String → String
emit zero n out = out
emit (suc f) n out =
    let rest = emit f (n / 10) (digit (n % 10) <> out) in if n == 0 then out else rest

unfoldable pub show : ℕ → String
unfolding emit
show n = if n == 0 then "0" else emit n n ""

unfoldable pub show_ℤ : ℤ → String
unfolding show
show_ℤ (pos n) = show n
show_ℤ (negsuc n) = "-" <> show (n + 1)

show_tests : (show 0 ≡ "0") × (show 500 ≡ "500") × (show_ℤ (negsuc 9) ≡ "-10")
unfolding show show_ℤ
show_tests = (refl, refl, refl)
