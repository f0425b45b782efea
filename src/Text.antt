-- ===== src/Text.antt =====
-- The methods of Rust's `str` that the program calls: `char::is_whitespace`, `trim`, `is_empty`,
-- `strip_prefix`, the first piece of `split(c)`. `len` is the library's, the bytes of the UTF-8.
pub mod Trim
pub mod Prefix
pub mod Decimal
pub mod Digits
use rhel9_app_micro.Prelude.{
  true, false, ℕ, Char, code, String, Bool, ◌&&◌, ◌||◌, Option, none, some, ◌==◌, leb, str_eq,
  if◌then◌else◌,
}
use Prim.Native.String.{[], ◌∷◌}

-- `char::is_whitespace`: the code points with the property White_Space.
unfoldable pub is_whitespace : ℕ → Bool
is_whitespace c =
    (leb 9 c && leb c 13)
    || c == 32
    || c == 0x85
    || c == 0xa0
    || c == 0x1680
    || (leb 0x2000 c && leb c 0x200a)
    || c == 0x2028
    || c == 0x2029
    || c == 0x202f
    || c == 0x205f
    || c == 0x3000

unfoldable pub is_empty : String → Bool
is_empty [] = true
is_empty (c ∷ s) = false

unfoldable pub trim_start : String → String
unfolding is_whitespace
trim_start [] = []
trim_start (c ∷ s) = if is_whitespace (code c) then trim_start s else c ∷ s

-- A character in front of what is kept of the rest: dropped only at the end of the text.
abbrev pub keep : Char → String → String
keep c [] = if is_whitespace (code c) then [] else c ∷ []
keep c (d ∷ s) = c ∷ d ∷ s

unfoldable pub trim_end : String → String
unfolding is_whitespace
trim_end [] = []
trim_end (c ∷ s) = keep c (trim_end s)

unfoldable pub trim : String → String
unfolding trim_start trim_end
trim s = trim_end (trim_start s)

-- The prefix comes first.
unfoldable pub strip_prefix : String → String → Option String
strip_prefix [] s = some s
strip_prefix (p ∷ ps) [] = none
strip_prefix (p ∷ ps) (c ∷ s) = if code p == code c then strip_prefix ps s else none

-- What `s.split(sep).next()` gives; on a fresh split it is never `None`.
unfoldable pub split_first : ℕ → String → String
split_first sep [] = []
split_first sep (c ∷ s) = if code c == sep then [] else c ∷ split_first sep s
