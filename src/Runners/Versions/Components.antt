-- ===== src/Runners/Versions/Components.antt =====
-- The comparison of versions component by component, without the filling up with zeros.
use Prim.Native.Nat.{compare, Ordering}
use ai_auto_test_platform.Prelude.{
  ℕ, zero, suc, ◌-◌, ◌≤◌, max, ◌≡◌, refl, ap, ◌↔◌, Option, none, some, List, [], ◌∷◌, ◌++◌, length,
  arith,
}
use ai_auto_test_platform.Runners.Versions.{
  Unicode, pad, tuple_compare, compare_parts, compare_numeric_versions, compare_parsed,
  numeric_version,
}

-- Equal components, the missing ones counted as 0.
abbrev pub SameComponents : List ℕ → List ℕ → Type 0
SameComponents [] [] = Unit
SameComponents [] (y ∷ ys) = (0 ≡ y) × SameComponents [] ys
SameComponents (x ∷ xs) [] = (x ≡ 0) × SameComponents xs []
SameComponents (x ∷ xs) (y ∷ ys) = (x ≡ y) × SameComponents xs ys

abbrev filled : ℕ → List ℕ → List ℕ
filled n xs = xs ++ pad (n - length xs)

filled-suc : (n x : ℕ) (xs : List ℕ) → filled (suc n) (x ∷ xs) ≡ x ∷ filled n xs
filled-suc n x xs = let e : suc n - suc (length xs) ≡ n - length xs = omega arith in rw e refl

filled-nil_suc : (n : ℕ) → filled (suc n) [] ≡ 0 ∷ filled n []
filled-nil_suc n =
    let e : suc n - 0 ≡ suc n = omega arith in let f : n - 0 ≡ n = omega arith in rw (e, f) refl

tuple_compare_refl : (xs : List ℕ) → tuple_compare xs xs ≡ Ordering.eq
unfolding tuple_compare
tuple_compare_refl [] = refl
tuple_compare_refl (x ∷ xs) = ground (arith, tuple_compare_refl xs)

-- An order, and the next one where it is equal.
abbrev pub first_of : Ordering → Ordering → Ordering
first_of Ordering.lt rest = Ordering.lt
first_of Ordering.gt rest = Ordering.gt
first_of Ordering.eq rest = rest

-- The order of the first differing components, where missing ones count as 0.
unfoldable pub components : List ℕ → List ℕ → Ordering
components [] [] = Ordering.eq
components [] (y ∷ ys) = first_of (compare 0 y) (components [] ys)
components (x ∷ xs) [] = first_of (compare x 0) (components xs [])
components (x ∷ xs) (y ∷ ys) = first_of (compare x y) (components xs ys)

tuple_compare-first_of :
    (x y : ℕ) (xs ys : List ℕ) (o : Ordering)
    → tuple_compare xs ys ≡ o
    → tuple_compare (x ∷ xs) (y ∷ ys) ≡ first_of (compare x y) o
unfolding tuple_compare
tuple_compare-first_of x y xs ys o e = ground (arith, e)

tuple_compare-filled :
    (n : ℕ) (xs ys : List ℕ)
    → length xs ≤ n
    → length ys ≤ n
    → tuple_compare (filled n xs) (filled n ys) ≡ components xs ys
unfolding components
tuple_compare-filled n [] [] h k = tuple_compare_refl (filled n [])
tuple_compare-filled (suc n) [] (y ∷ ys) h k =
    rw (filled-nil_suc n, filled-suc n y ys)
      (tuple_compare-first_of 0 y (filled n []) (filled n ys) (components [] ys)
        (tuple_compare-filled n [] ys (omega arith) (omega arith)))
tuple_compare-filled (suc n) (x ∷ xs) [] h k =
    rw (filled-nil_suc n, filled-suc n x xs)
      (tuple_compare-first_of x 0 (filled n xs) (filled n []) (components xs [])
        (tuple_compare-filled n xs [] (omega arith) (omega arith)))
tuple_compare-filled (suc n) (x ∷ xs) (y ∷ ys) h k =
    rw (filled-suc n x xs, filled-suc n y ys)
      (tuple_compare-first_of x y (filled n xs) (filled n ys) (components xs ys)
        (tuple_compare-filled n xs ys (omega arith) (omega arith)))
tuple_compare-filled zero [] (y ∷ ys) h k = absurd (omega arith)
tuple_compare-filled zero (x ∷ xs) ys h k = absurd (omega arith)

compare_parts-components : (xs ys : List ℕ) → compare_parts xs ys ≡ components xs ys
unfolding compare_parts
compare_parts-components xs ys =
    tuple_compare-filled (max (length xs) (length ys)) xs ys (omega arith) (omega arith)

-- The answer for two texts, of which one need not be numeric.
abbrev pub of_both :
    (List ℕ → List ℕ → Ordering) → Option (List ℕ) → Option (List ℕ) → Option Ordering
of_both order (some xs) (some ys) = some (order xs ys)
of_both order _ _ = none

-- Two version texts compare by their numeric components alone: by the first component in which they
-- differ, a missing one counting as 0, and not at all unless both are numeric.
pub compare_numeric_versions-components :
    ⦃u : Unicode⦄ (left right : List ℕ)
    → compare_numeric_versions left right
      ≡ of_both components (numeric_version left) (numeric_version right)
unfolding compare_numeric_versions
compare_numeric_versions-components left right = go (numeric_version left) (numeric_version right)
  where
    go : (l r : Option (List ℕ)) → compare_parsed l r ≡ of_both components l r
    go none none = refl
    go none (some r) = refl
    go (some l) none = refl
    go (some l) (some r) = ap some (compare_parts-components l r)

components_eq : (xs ys : List ℕ) → (components xs ys ≡ Ordering.eq) ↔ SameComponents xs ys
unfolding components
components_eq [] [] = ((λ _. tt), λ _. refl)
components_eq [] (y ∷ ys) =
    let rest = components_eq [] ys in
    ((λ h. (ground arith, rest.0 (ground arith))), λ h. let e = rest.1 h.1 in ground arith)
components_eq (x ∷ xs) [] =
    let rest = components_eq xs [] in
    ((λ h. (ground arith, rest.0 (ground arith))), λ h. let e = rest.1 h.1 in ground arith)
components_eq (x ∷ xs) (y ∷ ys) =
    let rest = components_eq xs ys in
    ((λ h. (ground arith, rest.0 (ground arith))), λ h. let e = rest.1 h.1 in ground arith)

pub compare_parts_eq : (xs ys : List ℕ) → (compare_parts xs ys ≡ Ordering.eq) ↔ SameComponents xs ys
compare_parts_eq xs ys = rw (compare_parts-components xs ys) (components_eq xs ys)
