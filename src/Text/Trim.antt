-- ===== src/Text/Trim.antt =====
-- What `trim` returns: nothing blank at either end, no longer than its input, and stable.
use Prim.Native.String.{[], ◌∷◌}
use Prim.Native.Char.{len_utf8}
use Prim.Native.String.len
use rhel9_app_micro.Prelude.{
  ◌+◌, ◌≤◌, Char, code, String, len, ◌≡◌, refl, ◌∙◌, ap, inl, inr, ◌↔◌, true, false, arith,
  Bool-cases,
}
use rhel9_app_micro.Text.{is_whitespace, is_empty, trim_start, keep, trim_end, trim}

-- No character of the text is white space.
abbrev pub NoSpace : String → Type 0
NoSpace [] = Unit
NoSpace (c ∷ s) = (is_whitespace (code c) ≡ false) × NoSpace s

-- Every character of the text is white space.
abbrev pub AllSpace : String → Type 0
AllSpace [] = Unit
AllSpace (c ∷ s) = (is_whitespace (code c) ≡ true) × AllSpace s

-- The first character, if any, is not white space.
abbrev pub CleanStart : String → Type 0
CleanStart [] = Unit
CleanStart (c ∷ s) = is_whitespace (code c) ≡ false

-- The last character, if any, is not white space.
abbrev pub CleanEnd : String → Type 0
CleanEnd [] = Unit
CleanEnd (c ∷ []) = is_whitespace (code c) ≡ false
CleanEnd (c ∷ d ∷ s) = CleanEnd (d ∷ s)

trim_start-CleanStart : (s : String) → CleanStart (trim_start s)
unfolding trim_start
trim_start-CleanStart [] = tt
trim_start-CleanStart (c ∷ s) = elim (Bool-cases (is_whitespace (code c))) [
  | inl blank ↦ rw blank (trim_start-CleanStart s)
  | inr solid ↦ rw solid solid
]

trim_start_clean : (s : String) → CleanStart s → trim_start s ≡ s
unfolding trim_start
trim_start_clean [] h = refl
trim_start_clean (c ∷ s) h = rw h

keep-CleanEnd : (c : Char) (t : String) → CleanEnd t → CleanEnd (keep c t)
keep-CleanEnd c [] h = elim (Bool-cases (is_whitespace (code c))) [
  | inl blank ↦ rw blank tt
  | inr solid ↦ rw solid solid
]
keep-CleanEnd c (d ∷ t) h = h

trim_end-CleanEnd : (s : String) → CleanEnd (trim_end s)
unfolding trim_end
trim_end-CleanEnd [] = tt
trim_end-CleanEnd (c ∷ s) = keep-CleanEnd c (trim_end s) (trim_end-CleanEnd s)

trim_end_clean : (s : String) → CleanEnd s → trim_end s ≡ s
unfolding trim_end
trim_end_clean [] h = refl
trim_end_clean (c ∷ []) h = rw h
trim_end_clean (c ∷ d ∷ s) h = ap (keep c) (trim_end_clean (d ∷ s) h)

keep-CleanStart : (c : Char) (t : String) → is_whitespace (code c) ≡ false → CleanStart (keep c t)
keep-CleanStart c [] h = rw h h
keep-CleanStart c (d ∷ t) h = h

trim_end-CleanStart : (s : String) → CleanStart s → CleanStart (trim_end s)
unfolding trim_end
trim_end-CleanStart [] h = tt
trim_end-CleanStart (c ∷ s) h = keep-CleanStart c (trim_end s) h

-- A text that `trim` leaves alone.
pub record IsTrimmed (s : String) : Type 0 where
  pub start : CleanStart s
  pub finish : CleanEnd s

pub trim-IsTrimmed : (s : String) → IsTrimmed (trim s)
unfolding trim
trim-IsTrimmed s = record {
  start = trim_end-CleanStart (trim_start s) (trim_start-CleanStart s);
  finish = trim_end-CleanEnd (trim_start s);
}

pub trim_of_IsTrimmed : (s : String) → IsTrimmed s → trim s ≡ s
unfolding trim
trim_of_IsTrimmed s h = ap trim_end (trim_start_clean s h.start) ∙ trim_end_clean s h.finish

pub trim_idem : (s : String) → trim (trim s) ≡ trim s
trim_idem s = trim_of_IsTrimmed (trim s) (trim-IsTrimmed s)

NoSpace-CleanEnd : (s : String) → NoSpace s → CleanEnd s
NoSpace-CleanEnd [] h = tt
NoSpace-CleanEnd (c ∷ []) h = h.0
NoSpace-CleanEnd (c ∷ d ∷ s) h = NoSpace-CleanEnd (d ∷ s) h.1

NoSpace-CleanStart : (s : String) → NoSpace s → CleanStart s
NoSpace-CleanStart [] h = tt
NoSpace-CleanStart (c ∷ s) h = h.0

pub trim_of_NoSpace : (s : String) → NoSpace s → trim s ≡ s
trim_of_NoSpace s h =
    trim_of_IsTrimmed s (record { start = NoSpace-CleanStart s h; finish = NoSpace-CleanEnd s h })

len-keep : (c : Char) (t : String) → len (keep c t) ≤ len_utf8 c + len t
len-keep c [] = elim (Bool-cases (is_whitespace (code c))) [
  | inl blank ↦ rw blank (omega arith)
  | inr solid ↦ rw (solid, len.cons) (omega arith)
]
len-keep c (d ∷ t) = rw len.cons (omega arith)

len-trim_end : (s : String) → len (trim_end s) ≤ len s
unfolding trim_end
len-trim_end [] = omega arith
len-trim_end (c ∷ s) = omega (arith, len-keep c (trim_end s), len-trim_end s, len.cons c s)

len-trim_start : (s : String) → len (trim_start s) ≤ len s
unfolding trim_start
len-trim_start [] = omega arith
len-trim_start (c ∷ s) = elim (Bool-cases (is_whitespace (code c))) [
  | inl blank ↦ rw blank (omega (arith, len-trim_start s, len.cons c s))
  | inr solid ↦ rw solid (omega arith)
]

pub len-trim-le : (s : String) → len (trim s) ≤ len s
unfolding trim
len-trim-le s = omega (arith, len-trim_end (trim_start s), len-trim_start s)

keep-AllSpace : (c : Char) (t : String) → is_empty (keep c t) ≡ true → is_whitespace (code c) ≡ true
unfolding is_empty
keep-AllSpace c [] h = elim (Bool-cases (is_whitespace (code c))) [
  | inl blank ↦ blank
  | inr solid ↦ cc (rw solid at h)
]
keep-AllSpace c (d ∷ t) h = cc

trim_end_solid :
    (c : Char) (s : String) → is_whitespace (code c) ≡ false → is_empty (trim_end (c ∷ s)) ≡ false
unfolding trim_end
trim_end_solid c s h = elim (Bool-cases (is_empty (keep c (trim_end s)))) [
  | inl e ↦ cc (keep-AllSpace c (trim_end s) e)
  | inr e ↦ e
]

trim_empty_sound : (s : String) → is_empty (trim s) ≡ true → AllSpace s
unfolding trim trim_start
trim_empty_sound [] h = tt
trim_empty_sound (c ∷ s) h = elim (Bool-cases (is_whitespace (code c))) [
  | inl blank ↦ (blank, trim_empty_sound s (rw blank at h))
  | inr solid ↦ cc (rw solid at h, trim_end_solid c s solid)
]

trim_empty_complete : (s : String) → AllSpace s → is_empty (trim s) ≡ true
unfolding trim trim_start trim_end is_empty
trim_empty_complete [] h = refl
trim_empty_complete (c ∷ s) (blank, h) = rw blank (trim_empty_complete s h)

-- `trim` leaves nothing exactly of a text that is all white space.
pub trim_empty_iff : (s : String) → (is_empty (trim s) ≡ true) ↔ AllSpace s
trim_empty_iff s = (trim_empty_sound s, trim_empty_complete s)
