-- ===== src/Provision/Kept.antt =====
-- What each command of the owner service writes keeps the numbers of the attempts.
use ai_auto_test_platform.Prelude.{
  ◌≡◌, refl, ap, sym, subst, ◌+◌, String, Option, none, some, List, str_eq, arith, ok, Ensures,
  Ensures-bind_eq, Ensures-require, eq_iff,
}
use ai_auto_test_platform.Runtime.{Runtime}
use ai_auto_test_platform.Idempotency.{IdempotencyRecord}
use ai_auto_test_platform.Owner.Rows.{RunTask, ExecutionAttempt, Dict}
use ai_auto_test_platform.Runners.Rows.{Runner}
use ai_auto_test_platform.Runners.Slots.{first}
use ai_auto_test_platform.Binding.Lookup.{first-passes}
use ai_auto_test_platform.Provision.Requests.{CreateTask, UpdateTask, CreateAttempt, UpdateAttempt}
use ai_auto_test_platform.Provision.Store.{Store, Texts, Call, is_attempt}
use ai_auto_test_platform.Provision.Guards.{
  assert_version, assert_task_unchanged, assert_all_unchanged, attempt_fields, validate_references,
}
use ai_auto_test_platform.Provision.Tasks.{
  create_fresh as create_task, update_fresh as update_task, insert_task, project_active, project_of,
  environment_active, environment_of, suite_in_project,
}
use ai_auto_test_platform.Provision.Attempts.{
  create_fresh, update_fresh, insert_attempt, new_attempt, updated_attempt, next_number,
  owned_attempt, is_eligible, assert_unblocked, blockers_of,
}
use ai_auto_test_platform.Provision.Numbers.{attempts_of, IsNumbered, IsNumbered-replaced}

-- The attempts of a store that a request answers with.
abbrev pub Numbers : ⦃tx : Texts⦄ → {A : Type 0} → A × Store → Type 0
Numbers (answer, db) = IsNumbered db.attempts

module _ ⦃rt : Runtime⦄ ⦃tx : Texts⦄ (call : Call) where
  pub create_task-keeps :
      (body : CreateTask) (project_id environment_id actor_id : String) (r : IdempotencyRecord Dict)
      (db : Store)
      → IsNumbered db.attempts
      → Ensures Numbers (create_task call body project_id environment_id actor_id r db)
  unfolding create_task insert_task
  create_task-keeps body project_id environment_id actor_id r db h =
      Ensures-require Numbers (project_active (project_of project_id db)) _ _ λ _.
        Ensures-require Numbers (environment_active project_id (environment_of environment_id db)) _
          _
          λ _.
            Ensures-bind_eq Numbers (suite_in_project body.case_suite_id project_id db) _ λ _ _. h

  pub update_task-keeps :
      (body : UpdateTask) (project_id actor_id : String) (r : IdempotencyRecord Dict)
      (task : RunTask) (db : Store)
      → IsNumbered db.attempts
      → Ensures Numbers (update_task call body project_id actor_id r task db)
  unfolding update_task
  update_task-keeps body project_id actor_id r task db h =
      Ensures-bind_eq Numbers (assert_version task.row_version body.expected_version "RunTask") _
        λ _ _. Ensures-bind_eq Numbers (assert_task_unchanged body task) _ λ _ _. h

  pub create_fresh-keeps :
      (body : CreateAttempt) (project_id runner_id actor_id : String) (r : IdempotencyRecord Dict)
      (task : RunTask) (db : Store)
      → IsNumbered db.attempts
      → Ensures Numbers (create_fresh call body project_id runner_id actor_id r task db)
  unfolding create_fresh insert_attempt new_attempt next_number
  create_fresh-keeps body project_id runner_id actor_id r task db h =
      let runner = first (λ (u : Runner). str_eq u.runner_id runner_id) db.runners in
      Ensures-require Numbers (is_eligible task.lifecycle_status) _ _ λ _.
        Ensures-bind_eq Numbers
          (assert_unblocked (blockers_of runner project_id (project_of project_id db))) _
          λ _ _.
            Ensures-bind_eq Numbers
              (validate_references body.references project_id task.run_task_id db) _
              λ _ _. (
                λ task_id e.
                    ap (λ id. some (tx.str (attempts_of id db.attempts + 1)))
                      ((eq_iff task.run_task_id task_id).0 e),
                h,
              )

  pub update_fresh-keeps :
      (body : UpdateAttempt) (project_id actor_id : String) (r : IdempotencyRecord Dict)
      (a : ExecutionAttempt) (db : Store)
      → first (is_attempt a.execution_attempt_id) db.attempts ≡ some a
      → IsNumbered db.attempts
      → Ensures Numbers (update_fresh call body project_id actor_id r a db)
  unfolding update_fresh
  update_fresh-keeps body project_id actor_id r a db e h =
      Ensures-bind_eq Numbers
        (assert_version a.row_version body.expected_version "ExecutionAttempt") _
        λ _ _.
          Ensures-bind_eq Numbers (assert_all_unchanged (attempt_fields body.references a)) _ λ _ _.
            IsNumbered-replaced a.execution_attempt_id a (updated_attempt call body actor_id a)
              db.attempts e (record { same_task = refl; same_number = refl }) h

owned_attempt-row :
    (row : Option ExecutionAttempt) (a : ExecutionAttempt) (project_id : String)
    → owned_attempt row ≡ ok (a, project_id)
    → row ≡ some a
owned_attempt-row none a project_id e = cc
owned_attempt-row (some b) a project_id e = ground (arith)

-- The row that an update finds is the first of its own identity.
pub owned_attempt-found :
    (id : String) (attempts : List ExecutionAttempt) (a : ExecutionAttempt) (project_id : String)
    → owned_attempt (first (is_attempt id) attempts) ≡ ok (a, project_id)
    → first (is_attempt a.execution_attempt_id) attempts ≡ some a
owned_attempt-found id attempts a project_id e =
    let same = owned_attempt-row (first (is_attempt id) attempts) a project_id e in
    let own = first-passes (is_attempt id) attempts a same in
    subst (λ k. first (is_attempt k) attempts ≡ some a)
      (sym ((eq_iff a.execution_attempt_id id).0 own)) same
