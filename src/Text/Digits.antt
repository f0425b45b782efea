-- ===== src/Text/Digits.antt =====
-- The number that decimal digits stand for, and Rust's `to_string` read back.
use Prim.Native.String.{[], ◌∷◌}
use Prim.Native.Nat.{◌/◌, ◌%◌}
use text.Mathlib.TextLemmas.{nil-append, cons-append}
use rhel9_app_micro.Prelude.{
  ℕ, zero, suc, ◌+◌, ◌-◌, ◌*◌, ◌<◌, ◌≤◌, code, String, ◌<>◌, ◌≡◌, refl, ◌∙◌, arith, ◌==◌,
  Bool-cases, inl, inr,
}
use rhel9_app_micro.Text.Decimal.{digit, emit, show}

-- The digits read after the number `n`.
abbrev pub digits_value : ℕ → String → ℕ
digits_value n [] = n
digits_value n (c ∷ s) = digits_value (n * 10 + (code c - b'0')) s

digits_value-append :
    (n : ℕ) (s t : String) → digits_value n (s <> t) ≡ digits_value (digits_value n s) t
digits_value-append n [] t = rw nil-append refl
digits_value-append n (c ∷ s) t =
    rw cons-append (digits_value-append (n * 10 + (code c - b'0')) s t)

digits_value-digit : (n d : ℕ) → d < 10 → digits_value n (digit d) ≡ n * 10 + d
digits_value-digit n zero h = refl
digits_value-digit n (suc zero) h = refl
digits_value-digit n (suc (suc zero)) h = refl
digits_value-digit n (suc (suc (suc zero))) h = refl
digits_value-digit n (suc (suc (suc (suc zero)))) h = refl
digits_value-digit n (suc (suc (suc (suc (suc zero))))) h = refl
digits_value-digit n (suc (suc (suc (suc (suc (suc zero)))))) h = refl
digits_value-digit n (suc (suc (suc (suc (suc (suc (suc zero))))))) h = refl
digits_value-digit n (suc (suc (suc (suc (suc (suc (suc (suc zero)))))))) h = refl
digits_value-digit n (suc (suc (suc (suc (suc (suc (suc (suc (suc zero))))))))) h = refl
digits_value-digit n (suc (suc (suc (suc (suc (suc (suc (suc (suc (suc d)))))))))) h =
    absurd (omega arith)

digits_value-emit :
    (f n : ℕ) (out : String) → n ≤ f → digits_value 0 (emit f n out) ≡ digits_value n out
unfolding emit
digits_value-emit zero n out h = let e : n ≡ 0 = omega arith in rw e refl
digits_value-emit (suc f) n out h = elim (Bool-cases (n == 0)) [
  | inl none_left ↦ let e : n ≡ 0 = ground arith in rw e refl
  | inr some_left ↦ rw some_left (
      digits_value-emit f (n / 10) (digit (n % 10) <> out) (ground arith)
      ∙ digits_value-append (n / 10) (digit (n % 10)) out
      ∙ rw (digits_value-digit (n / 10) (n % 10) (omega arith))
          (let e : n / 10 * 10 + n % 10 ≡ n = omega arith in rw e refl))
]

-- The text of a number stands for it.
pub digits_value-show : (n : ℕ) → digits_value 0 (show n) ≡ n
unfolding show
digits_value-show n = elim (Bool-cases (n == 0)) [
  | inl none_left ↦ let e : n ≡ 0 = ground arith in rw e refl
  | inr some_left ↦ rw some_left (digits_value-emit n n "" (omega arith))
]
