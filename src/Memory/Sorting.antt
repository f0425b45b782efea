-- ===== src/Memory/Sorting.antt =====
-- A list sorted by falling text keys, as the in-memory database answers `ORDER BY … DESC`.
use mathlib.Core.List.{Perm}
use mathlib.Core.List.Perm
use Prim.Native.Nat.{Ordering}
use Prim.Native.String.{compare, [], ◌∷◌}
use Prim.Native.String.compare
use rhel9_app_micro.Prelude.{
  String, ◌≡◌, ◌≢◌, List, arith, Bool, true, false, if◌then◌else◌, Bool-cases, inl, inr,
}

abbrev is_before : String → String → Bool
is_before s t = elim (compare s t) [ Ordering.lt ↦ true | _ ↦ false ]

before_asym : (s t : String) → compare s t ≡ Ordering.lt → compare t s ≢ Ordering.lt
before_asym [] [] h k = cc (h, compare.nil-nil)
before_asym [] (d ∷ t) h k = cc (k, compare.cons-nil d t)
before_asym (c ∷ s) [] h k = cc (h, compare.cons-nil c s)
before_asym (c ∷ s) (d ∷ t) h k =
    ground (arith, compare.cons-cons c d s t, compare.cons-cons d c t s, before_asym s t)

NotBefore : (s t : String) → is_before s t ≡ false → compare s t ≢ Ordering.lt
NotBefore s t b e = ground arith

not_after : (s t : String) → is_before s t ≡ true → compare t s ≢ Ordering.lt
not_after s t b = let e : compare s t ≡ Ordering.lt = ground arith in before_asym s t e

module _ {A : Type 0} (key : A → String) where
  pub place : A → List A → List A
  place x List.[] = List.◌∷◌ x List.[]
  place x (List.◌∷◌ y ys) =
      if is_before (key y) (key x) then List.◌∷◌ x (List.◌∷◌ y ys) else List.◌∷◌ y (place x ys)

  unfoldable pub sort : List A → List A
  unfolding place
  sort List.[] = List.[]
  sort (List.◌∷◌ x xs) = place x (sort xs)

  abbrev pub Falling : List A → Type 0
  Falling List.[] = Unit
  Falling (List.◌∷◌ x List.[]) = Unit
  Falling (List.◌∷◌ x (List.◌∷◌ y ys)) =
      (compare (key x) (key y) ≢ Ordering.lt) × Falling (List.◌∷◌ y ys)

  place-perm : (x : A) (xs : List A) → Perm (place x xs) (List.◌∷◌ x xs)
  unfolding place
  place-perm x List.[] = Perm.refl _
  place-perm x (List.◌∷◌ y ys) = elim (Bool-cases (is_before (key y) (key x))) [
    | inl b ↦ rw b (Perm.refl _)
    | inr b ↦ rw b (Perm.trans (Perm.cons y (place-perm x ys)) (Perm.swap x y ys))
  ]

  pub sort-perm : (xs : List A) → Perm (sort xs) xs
  unfolding sort
  sort-perm List.[] = Perm.refl _
  sort-perm (List.◌∷◌ x xs) = Perm.trans (place-perm x (sort xs)) (Perm.cons x (sort-perm xs))

  place-Falling : (x : A) (xs : List A) → Falling xs → Falling (place x xs)
  unfolding place
  place-Falling x List.[] h = tt
  place-Falling x (List.◌∷◌ y List.[]) h = elim (Bool-cases (is_before (key y) (key x))) [
    | inl b ↦ rw b (not_after (key y) (key x) b, tt)
    | inr b ↦ rw b (NotBefore (key y) (key x) b, tt)
  ]
  place-Falling x (List.◌∷◌ y (List.◌∷◌ z zs)) h =
      let ih = place-Falling x (List.◌∷◌ z zs) h.1 in
      elim (Bool-cases (is_before (key y) (key x))) [
        | inl b ↦ rw b (not_after (key y) (key x) b, h)
        | inr b ↦ elim (Bool-cases (is_before (key z) (key x))) [
          | inl c ↦ rw (b, c) (NotBefore (key y) (key x) b, rw c at ih)
          | inr c ↦ rw (b, c) (h.0, rw c at ih)
        ]
      ]

  pub sort-Falling : (xs : List A) → Falling (sort xs)
  unfolding sort
  sort-Falling List.[] = tt
  sort-Falling (List.◌∷◌ x xs) = place-Falling x (sort xs) (sort-Falling xs)
