-- ===== src/Binding/Lookup.antt =====
-- The first row that a query returns, after a row has been replaced.
use ai_auto_test_platform.Prelude.{
  ◌≡◌, ◌⊎◌, refl, subst, none, some, List, [], ◌∷◌, All, All-mono, Bool, true, false, arith,
  Bool-cases, inl, inr,
}
use ai_auto_test_platform.Runners.Slots.{first, update_first}

module _ {A : Type 0} where
  -- Each row stands in the relation to every row after it.
  abbrev pub Pairwise : (A → A → Type 0) → List A → Type 0
  Pairwise R [] = Unit
  Pairwise R (x ∷ xs) = All (R x) xs × Pairwise R xs

  pub first-passes : (p : A → Bool) (xs : List A) (x : A) → first p xs ≡ some x → p x ≡ true
  unfolding first
  first-passes p [] x e = cc
  first-passes p (y ∷ xs) x e = ground (arith, first-passes p xs x)

  pub first-All :
      (p : A → Bool) (P : A → Type 0) (xs : List A) (x : A) → All P xs → first p xs ≡ some x → P x
  unfolding first
  first-All p P [] x h e = cc
  first-All p P (y ∷ xs) x h e = elim (Bool-cases (p y)) [
    | inl c ↦ let e' : y ≡ x = ground (arith) in rw (← e') h.0
    | inr c ↦ first-All p P xs x h.1 (ground (arith))
  ]

  pub none-All : (p : A → Bool) (xs : List A) → first p xs ≡ none → All (λ x. p x ≡ false) xs
  unfolding first
  none-All p [] e = tt
  none-All p (y ∷ xs) e = ground (arith, none-All p xs)

  -- The row that a query returns stands in the relation to each other row, or that row to it.
  pub first-Pairwise :
      (R : A → A → Type 0) (p : A → Bool) (xs : List A) (x : A)
      → Pairwise R xs
      → first p xs ≡ some x
      → All (λ y. (y ≡ x) ⊎ (R x y ⊎ R y x)) xs
  unfolding first
  first-Pairwise R p [] x h e = tt
  first-Pairwise R p (y ∷ xs) x h e = elim (Bool-cases (p y)) [
    | inl c ↦
        let same : y ≡ x = ground (arith) in
        (
          inl same,
          All-mono (R y) (λ z. (z ≡ x) ⊎ (R x z ⊎ R z x)) xs
              (λ z r. inr (inl (subst (λ k. R k z) same r))) h.0,
        )
    | inr c ↦
        let e' : first p xs ≡ some x = ground (arith) in
        (inr (inr (first-All p (R y) xs x h.0 e')), first-Pairwise R p xs x h.1 e')
  ]

  -- A row that is changed in place and still passes its query.
  pub first-updated :
      (p : A → Bool) (change : A → A) (xs : List A) (x : A)
      → ((y : A) → p (change y) ≡ p y)
      → first p xs ≡ some x
      → first p (update_first p change xs) ≡ some (change x)
  unfolding first update_first
  first-updated p change [] x same e = cc
  first-updated p change (y ∷ xs) x same e =
      ground (arith, same y, first-updated p change xs x same)

  -- No row of the one query passes the other, before or after.
  pub first-updated_other :
      (p q : A → Bool) (change : A → A) (xs : List A)
      → ((y : A) → p y ≡ true → q y ≡ false)
      → ((y : A) → p y ≡ true → q (change y) ≡ false)
      → first q (update_first p change xs) ≡ first q xs
  unfolding first update_first
  first-updated_other p q change [] out out' = refl
  first-updated_other p q change (y ∷ xs) out out' =
      ground (arith, out y, out' y, first-updated_other p q change xs out out')

  module _ (q : A → Bool) (old new : A) where
    pub first-replaced :
        (xs : List A)
        → first q xs ≡ some old
        → q new ≡ true
        → first q (update_first q (λ _. new) xs) ≡ some new
    unfolding first update_first
    first-replaced [] e h = cc
    first-replaced (x ∷ xs) e h = ground (arith, first-replaced xs)

    pub first-replaced_other :
        (p : A → Bool) (xs : List A)
        → first q xs ≡ some old
        → p old ≡ false
        → p new ≡ false
        → first p (update_first q (λ _. new) xs) ≡ first p xs
    unfolding first update_first
    first-replaced_other p [] e o n = refl
    first-replaced_other p (x ∷ xs) e o n = ground (arith, first-replaced_other p xs)

    pub All-replaced :
        (P : A → Type 0) (xs : List A)
        → first q xs ≡ some old
        → (P old → P new)
        → All P xs
        → All P (update_first q (λ _. new) xs)
    unfolding first update_first
    All-replaced P [] e k h = tt
    All-replaced P (x ∷ xs) e k h = elim (Bool-cases (q x)) [
      | inl c ↦ let same : x ≡ old = ground (arith) in rw c (k (rw (← same) h.0), h.1)
      | inr c ↦ rw c (h.0, All-replaced P xs (ground (arith)) k h.1)
    ]

    -- A pairwise relation survives if the new row has it wherever the old one had it.
    pub Pairwise-replaced :
        (R : A → A → Type 0) (xs : List A)
        → first q xs ≡ some old
        → ((x : A) → R x old → R x new)
        → ((y : A) → R old y → R new y)
        → Pairwise R xs
        → Pairwise R (update_first q (λ _. new) xs)
    unfolding first update_first
    Pairwise-replaced R [] e k l h = tt
    Pairwise-replaced R (x ∷ xs) e k l h = elim (Bool-cases (q x)) [
      | inl c ↦
          let same : x ≡ old = ground (arith) in
          rw c (All-mono (R old) (R new) xs l (rw (← same) h.0), h.1)
      | inr c ↦
          let e' : first q xs ≡ some old = ground (arith) in
          rw c (All-replaced (R x) xs e' (k x) h.0, Pairwise-replaced R xs e' k l h.1)
    ]
