-- ===== src/Provision/Numbers.antt =====
-- The numbers of the attempts of a task, over any requests to the owner service.
use ai_auto_test_platform.Prelude.{
  ℕ, ◌≡◌, sym, ap, subst, ◌∙◌, ◌+◌, Bool, String, some, List, [], ◌∷◌, true, select, length, arith,
  Bool-cases, inl, inr,
}
use ai_auto_test_platform.Owner.Rows.{ExecutionAttempt}
use ai_auto_test_platform.Runners.Readiness.{is_text}
use ai_auto_test_platform.Runners.Slots.{first, update_first}
use ai_auto_test_platform.Provision.Store.{Texts, is_attempt}

-- How many attempts a task has.
abbrev pub attempts_of : String → List ExecutionAttempt → ℕ
attempts_of task_id attempts =
    length (select (λ (a : ExecutionAttempt). is_text a.run_task_id task_id) attempts)

-- Newest attempts first: each has the number after those of its task that are older.
abbrev pub IsNumbered : ⦃tx : Texts⦄ → List ExecutionAttempt → Type 0
IsNumbered [] = Unit
IsNumbered ⦃tx⦄ (a ∷ rest) =
    ((task_id : String)
      → is_text a.run_task_id task_id ≡ true
      → a.attempt_no ≡ some (tx.str (attempts_of task_id rest + 1)))
    × IsNumbered rest

-- A row that another one replaces, of the same task and with the same number.
pub record Renames (old new : ExecutionAttempt) : Type 0 where
  pub same_task : new.run_task_id ≡ old.run_task_id
  pub same_number : new.attempt_no ≡ old.attempt_no

module _ (id : String) (old new : ExecutionAttempt) where
  counted-replaced :
      (p : ExecutionAttempt → Bool) (attempts : List ExecutionAttempt)
      → first (is_attempt id) attempts ≡ some old
      → p new ≡ p old
      → length (select p (update_first (is_attempt id) (λ _. new) attempts))
        ≡ length (select p attempts)
  unfolding first update_first
  counted-replaced p [] e same = cc
  counted-replaced p (a ∷ rest) e same = ground (arith, counted-replaced p rest)

  attempts_of-replaced :
      (task_id : String) (attempts : List ExecutionAttempt)
      → first (is_attempt id) attempts ≡ some old
      → Renames old new
      → attempts_of task_id (update_first (is_attempt id) (λ _. new) attempts)
        ≡ attempts_of task_id attempts
  attempts_of-replaced task_id attempts e same =
      counted-replaced (λ (a : ExecutionAttempt). is_text a.run_task_id task_id) attempts e
        (ap (λ k. is_text k task_id) same.same_task)

  pub IsNumbered-replaced :
      ⦃tx : Texts⦄ (attempts : List ExecutionAttempt)
      → first (is_attempt id) attempts ≡ some old
      → Renames old new
      → IsNumbered attempts
      → IsNumbered (update_first (is_attempt id) (λ _. new) attempts)
  unfolding first update_first
  IsNumbered-replaced [] e same h = tt
  IsNumbered-replaced ⦃tx⦄ (a ∷ rest) e same h = elim (Bool-cases (is_attempt id a)) [
    | inl c ↦
        let found : a ≡ old = ground (arith) in
        let own = subst (λ k. IsNumbered (k ∷ rest)) found h in
        rw c (
          λ task_id e.
              same.same_number
              ∙ own.0 task_id (sym (ap (λ k. is_text k task_id) same.same_task) ∙ e),
          h.1,
        )
    | inr c ↦
        let e' : first (is_attempt id) rest ≡ some old = ground (arith) in
        rw c (
          λ task_id e.
              h.0 task_id e
              ∙ ap (λ n. some (tx.str (n + 1))) (sym (attempts_of-replaced task_id rest e' same)),
          IsNumbered-replaced rest e' same h.1,
        )
  ]
