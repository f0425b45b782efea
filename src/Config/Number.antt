-- ===== src/Config/Number.antt =====
-- Rust's `str::parse::<u32>`: an optional `+`, then decimal digits, with overflow refused.
use Prim.Native.String.{[], ◌∷◌}
use rhel9_app_micro.Prelude.{
  ℕ, ◌+◌, ◌-◌, ◌*◌, ◌^◌, ◌<◌, code, String, ◌≡◌, Bool, ◌&&◌, Option, none, some, inl, inr, arith,
  ◌==◌, leb, ltb, if◌then◌else◌, Bool-cases,
}

abbrev pub u32_limit : ℕ
u32_limit = 2 ^ 32

abbrev is_digit : ℕ → Bool
is_digit c = leb b'0' c && leb c b'9'

-- `checked_mul` by 10 and `checked_add` of the digit, folded over the text.
unfoldable pub parse_digits : ℕ → String → Option ℕ
parse_digits n [] = some n
parse_digits n (c ∷ s) =
    let next = n * 10 + (code c - b'0') in
    let rest = parse_digits next s in
    if is_digit (code c) then (if ltb next u32_limit then rest else none) else none

abbrev nonempty_digits : String → Option ℕ
nonempty_digits [] = none
nonempty_digits (c ∷ s) = parse_digits 0 (c ∷ s)

unfoldable pub parse_u32 : String → Option ℕ
unfolding parse_digits
parse_u32 [] = none
parse_u32 (c ∷ s) = if code c == b'+' then nonempty_digits s else parse_digits 0 (c ∷ s)

parse_digits-lt :
    (n : ℕ) (s : String) (v : ℕ) → n < u32_limit → parse_digits n s ≡ some v → v < u32_limit
unfolding parse_digits
parse_digits-lt n [] v h e = ground arith
parse_digits-lt n (c ∷ s) v h e = ground (arith, parse_digits-lt (n * 10 + (code c - b'0')) s v)

nonempty_digits-lt : (s : String) (v : ℕ) → nonempty_digits s ≡ some v → v < u32_limit
nonempty_digits-lt [] v e = cc
nonempty_digits-lt (c ∷ s) v e = parse_digits-lt 0 (c ∷ s) v (omega arith) e

-- A number that `parse` accepts fits a `u32`.
pub parse_u32-lt : (s : String) (v : ℕ) → parse_u32 s ≡ some v → v < u32_limit
unfolding parse_u32
parse_u32-lt [] v e = cc
parse_u32-lt (c ∷ s) v e = elim (Bool-cases (code c == b'+')) [
  | inl plus ↦ nonempty_digits-lt s v (rw plus at e)
  | inr other ↦ parse_digits-lt 0 (c ∷ s) v (omega arith) (rw other at e)
]
