-- ===== src/Provision/Guards.antt =====
-- The guards of the owner service: `_required_id`, `_assert_version`, `_assert_unchanged`,
-- `_require_scoped_reference` and `_validate_optional_attempt_references`.
use ai_auto_test_platform.Prelude.{
  ℕ, String, Option, none, some, List, [], ◌∷◌, Bool, true, false, ◌==◌, str_eq, concat, length,
  if◌then◌else◌, Result, ok, err, ◌>>◌, require,
}
use ai_auto_test_platform.Owner.Rows.{RunTask, ExecutionAttempt}
use ai_auto_test_platform.Runners.Readiness.{is_text}
use ai_auto_test_platform.Runners.Rows.{Lease}
use ai_auto_test_platform.Runners.Slots.{first}
use ai_auto_test_platform.Runners.Versions.{codes}
use ai_auto_test_platform.Provision.Requests.{References, UpdateTask}
use ai_auto_test_platform.Provision.Store.{
  Store, Texts, Reference, invalid_creation, state_conflict, version_conflict,
}

unfoldable pub required_id : Option String → String → Result String
required_id none field =
    err (invalid_creation (concat field " is required and must be a 26-character id."))
required_id (some value) field =
    if length (codes value) == 26
    then ok value
    else err (invalid_creation (concat field " is required and must be a 26-character id."))

-- `_scoped_business_key`
unfoldable pub scoped_business_key : ⦃tx : Texts⦄ → String → String → String
scoped_business_key ⦃tx⦄ project_id key = concat project_id (concat ":" (tx.hexdigest key))

abbrev pub assert_version : ℕ → ℕ → String → Result (Unit {0})
assert_version actual expected label = require (actual == expected) (version_conflict label)

-- `requested is None or requested == actual`, with the actual value possibly None
abbrev pub is_unchanged : Option String → Option String → Bool
is_unchanged none actual = true
is_unchanged (some requested) actual = is_text actual requested

abbrev pub assert_unchanged : String → Option String → Option String → Result (Unit {0})
assert_unchanged field requested actual =
    require (is_unchanged requested actual)
      (state_conflict (concat field " is immutable through the generic metadata update command."))

-- The fields of a task that its update must leave.
unfoldable pub assert_task_unchanged : UpdateTask → RunTask → Result (Unit {0})
assert_task_unchanged body task =
    assert_unchanged "project_id" body.project_id task.project_id
    >> (assert_unchanged "idempotency_key" body.idempotency_key task.idempotency_key
        >> (assert_unchanged "case_suite_id" body.case_suite_id task.case_suite_id
            >> (assert_unchanged "environment_id" body.environment_id (some task.environment_id)
                >> (assert_unchanged "task_state" body.task_state (some task.task_state)
                    >> assert_unchanged "final_result" body.final_result
                        (some task.final_result)))))

-- The loop over the fields of an attempt.
unfoldable pub assert_all_unchanged :
    List (String × (Option String × Option String)) → Result (Unit {0})
assert_all_unchanged [] = ok tt
assert_all_unchanged ((field, (requested, actual)) ∷ rest) =
    assert_unchanged field requested actual >> assert_all_unchanged rest

abbrev pub attempt_fields :
    References → ExecutionAttempt → List (String × (Option String × Option String))
attempt_fields r a =
    ("run_task_id", (r.run_task_id, a.run_task_id))
    ∷ ("attempt_no", (r.attempt_no, a.attempt_no))
    ∷ ("case_attempt_id", (r.case_attempt_id, a.case_attempt_id))
    ∷ ("runner_id", (r.runner_id, some a.runner_id))
    ∷ ("configuration_snapshot_id", (r.configuration_snapshot_id, a.configuration_snapshot_id))
    ∷ ("execution_batch_id", (r.execution_batch_id, a.execution_batch_id))
    ∷ ("lease_id", (r.lease_id, a.lease_id))
    ∷ ("execution_lock_id", (r.execution_lock_id, a.execution_lock_id))
    ∷ []

abbrev pub of_project : String → Option Reference → Bool
of_project project_id none = false
of_project project_id (some row) = is_text row.project_id project_id

abbrev pub of_task : Option String → Option Reference → Bool
of_task none row = true
of_task (some task_id) none = false
of_task (some task_id) (some row) = is_text row.run_task_id task_id

unfoldable pub require_scoped_reference :
    String → String → String → String → Option String → Store → Result (Unit {0})
require_scoped_reference table reference_id project_id label run_task_id db =
    let row = first (λ (r : Reference). str_eq r.id reference_id) (db.referenced table) in
    require (of_project project_id row)
      (state_conflict (concat label " must belong to the same Project as the RunTask."))
    >> require (of_task run_task_id row)
        (state_conflict (concat label " must belong to the same RunTask."))

-- One turn of the loop of `_validate_optional_attempt_references`.
unfoldable pub optional_reference :
    Option String → String → String → String → Option String → Store → Result (Unit {0})
optional_reference none table project_id label run_task_id db = ok tt
optional_reference (some id) table project_id label run_task_id db =
    require_scoped_reference table id project_id label run_task_id db

abbrev pub lease_of_project : String → Option Lease → Bool
lease_of_project project_id none = false
lease_of_project project_id (some lease) = str_eq lease.project_id project_id

unfoldable pub optional_lease : Option String → String → Store → Result (Unit {0})
optional_lease none project_id db = ok tt
optional_lease (some id) project_id db =
    require
      (lease_of_project project_id (first (λ (l : Lease). str_eq l.resource_lease_id id) db.leases))
      (state_conflict "ResourceLease must belong to the same Project as the RunTask.")

-- `_validate_optional_attempt_references` for a task of the project
unfoldable pub validate_references : References → String → String → Store → Result (Unit {0})
validate_references r project_id task_id db =
    optional_reference r.case_attempt_id "atp_case_attempt" project_id "CaseAttempt" (some task_id)
      db
    >> (optional_reference r.configuration_snapshot_id "atp_configuration_snapshot" project_id
          "ConfigurationSnapshot" (some task_id) db
        >> (optional_reference r.execution_batch_id "atp_execution_batch" project_id
              "ExecutionBatch" (some task_id) db
            >> (optional_reference r.execution_lock_id "atp_execution_lock" project_id
                  "ExecutionLock" none db
                >> optional_lease r.lease_id project_id db)))
