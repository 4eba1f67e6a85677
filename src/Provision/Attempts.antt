-- ===== src/Provision/Attempts.antt =====
-- The rows of ExecutionAttempts that the owner service writes, with the checks of
-- `create_execution_attempt` and `update_execution_attempt`.
pub mod Commands
use ai_auto_test_platform.Prelude.{
  ℕ, ◌+◌, String, Option, none, some, List, [], ◌∷◌, Bool, true, false, not, ◌||◌, str_eq, concat,
  if◌then◌else◌, select, length, Result, ok, err, ◌>>=◌, ◌>>◌, require,
}
use ai_auto_test_platform.Runtime.{Runtime}
use ai_auto_test_platform.Idempotency.{IdempotencyRecord, Claimed}
use ai_auto_test_platform.Owner.Rows.{
  RunTask, ExecutionAttempt, Dict, Status, created, snapshotted, validating, waiting_resource,
  preparing, status_text, execution_attempt,
}
use ai_auto_test_platform.Owner.Session.{new_ulid, flush}
use ai_auto_test_platform.Runners.Readiness.{is_text, is_some, is_empty, accept_blockers}
use ai_auto_test_platform.Runners.Rows.{Runner, Project}
use ai_auto_test_platform.Runners.Slots.{first, update_first}
use ai_auto_test_platform.Provision.Requests.{
  CreateAttempt, UpdateAttempt, AttemptResource, attempt_resource,
}
use ai_auto_test_platform.Provision.Store.{
  Store, Texts, Service, Call, invalid_creation, not_found, state_conflict, found, is_task,
  is_attempt, attempt_of, complete_record, Evidence, audit, event, authenticated, claimed,
}
use ai_auto_test_platform.Provision.Guards.{
  required_id, assert_version, assert_all_unchanged, attempt_fields, validate_references,
}
use ai_auto_test_platform.Provision.Tasks.{project_of, owned_task, response_id}

-- `task.lifecycle_status in {"CREATED", ...}`
abbrev pub is_eligible : Status → Bool
is_eligible created = true
is_eligible snapshotted = true
is_eligible validating = true
is_eligible waiting_resource = true
is_eligible preparing = true
is_eligible _ = false

abbrev pub status_of : Option Project → Option String
status_of none = none
status_of (some p) = some p.lifecycle_status

unfoldable pub blockers_of : Option Runner → String → Option Project → List String
blockers_of none project_id project = "runner=MISSING" ∷ []
blockers_of (some runner) project_id project =
    if str_eq runner.project_id project_id
    then accept_blockers runner (status_of project)
    else concat "project_id=" runner.project_id ∷ []

-- `"; ".join(items)`
unfoldable pub join : List String → String
join [] = ""
join (x ∷ []) = x
join (x ∷ y ∷ rest) = concat x (concat "; " (join (y ∷ rest)))

abbrev pub assert_unblocked : List String → Result (Unit {0})
assert_unblocked blockers = require (is_empty blockers) (
    state_conflict
      (concat "Runner is not eligible for a new execution: " (concat (join blockers) ".")))

abbrev pub of_run_task : String → ExecutionAttempt → Bool
of_run_task task_id a = is_text a.run_task_id task_id

unfoldable pub new_attempt :
    Call → CreateAttempt → String → String → String → String → String → String → ExecutionAttempt
new_attempt call body project_id task_id runner_id number actor_id id = record {
  execution_attempt_id = id;
  execution_binding_snapshot_id = none;
  lifecycle = record {
    project_id = some project_id;
    lifecycle_status = created;
    row_version = 0;
    updated_at = call.now;
    updated_by = some actor_id;
  };
  run_task_id = some task_id;
  attempt_no = some number;
  case_attempt_id = body.case_attempt_id;
  runner_id = runner_id;
  configuration_snapshot_id = body.configuration_snapshot_id;
  execution_batch_id = body.execution_batch_id;
  lease_id = body.lease_id;
  execution_lock_id = body.execution_lock_id;
  execution_status = "READY";
  finalization_status = "INITIAL";
  display_name = body.display_name;
  created_at = call.now;
  created_by = some actor_id;
}

abbrev pub attempt_created : CreateAttempt → String → String → String → Evidence
attempt_created body project_id actor_id id = record {
  project_id = project_id;
  aggregate_type = execution_attempt;
  aggregate_id = id;
  operation = "create_execution_attempt";
  action = "EXECUTION_ATTEMPT_CREATED";
  actor_id = actor_id;
  previous = none;
  new = some (Status.other "READY");
  reason = body.reason;
}

abbrev pub attempt_payload : ExecutionAttempt → List (String × Option String)
attempt_payload a =
    ("execution_attempt_id", some a.execution_attempt_id)
    ∷ ("run_task_id", a.run_task_id)
    ∷ ("runner_id", some a.runner_id)
    ∷ ("attempt_no", a.attempt_no)
    ∷ ("execution_status", some a.execution_status)
    ∷ ("lifecycle_status", some (status_text a.lifecycle_status))
    ∷ []

abbrev pub attempt_updated : UpdateAttempt → String → String → ExecutionAttempt → Evidence
attempt_updated body project_id actor_id a = record {
  project_id = project_id;
  aggregate_type = execution_attempt;
  aggregate_id = a.execution_attempt_id;
  operation = "update_execution_attempt";
  action = "EXECUTION_ATTEMPT_UPDATED";
  actor_id = actor_id;
  previous = some a.lifecycle_status;
  new = some a.lifecycle_status;
  reason = body.reason;
}

-- The row after an update.
abbrev pub updated_attempt : Call → UpdateAttempt → String → ExecutionAttempt → ExecutionAttempt
updated_attempt call body actor_id a = record a {
  display_name = body.display_name;
  lifecycle = record a.lifecycle {
    row_version = a.row_version + 1;
    updated_at = call.now;
    updated_by = some actor_id;
  };
}

-- `existing_count + 1`
unfoldable pub next_number : String → List ExecutionAttempt → ℕ
next_number task_id attempts = length (select (of_run_task task_id) attempts) + 1

module _ ⦃rt : Runtime⦄ where
  -- The row of a new attempt is written, then its evidence, and the record is completed.
  unfoldable pub insert_attempt :
      Call
      → CreateAttempt
      → String
      → String
      → IdempotencyRecord Dict
      → (String → ExecutionAttempt)
      → Store
      → ExecutionAttempt × Store
  insert_attempt call body project_id actor_id r make db =
      let (id, session) = new_ulid db.session in
      let attempt = make id in
      let session' = audit call (attempt_created body project_id actor_id id) (flush session) in
      let session'' =
        event call id project_id "execution_attempt.created" (attempt_payload attempt) session' in
      (
        attempt,
        record db {
          attempts = attempt ∷ db.attempts;
          session = flush session'';
          records = complete_record call 201 (("execution_attempt_id", id) ∷ []) r db.records;
        },
      )

  unfoldable pub create_fresh :
      ⦃tx : Texts⦄
      → Call
      → CreateAttempt
      → String
      → String
      → String
      → IdempotencyRecord Dict
      → RunTask
      → Store
      → Result (AttemptResource × Store)
  create_fresh ⦃tx⦄ call body project_id runner_id actor_id r task db =
      let runner = first (λ (u : Runner). str_eq u.runner_id runner_id) db.runners in
      require (is_eligible task.lifecycle_status)
        (state_conflict "RunTask is not eligible for a new ExecutionAttempt.")
      >> (assert_unblocked (blockers_of runner project_id (project_of project_id db))
          >> (validate_references body.references project_id task.run_task_id db
              >> (let number = tx.str (next_number task.run_task_id db.attempts) in
                  let (attempt, db') =
                    insert_attempt call body project_id actor_id r
                      (new_attempt call body project_id task.run_task_id runner_id number actor_id)
                      db in
                  ok (attempt_resource attempt, db'))))

  unfoldable pub update_fresh :
      Call
      → UpdateAttempt
      → String
      → String
      → IdempotencyRecord Dict
      → ExecutionAttempt
      → Store
      → Result (AttemptResource × Store)
  update_fresh call body project_id actor_id r a db =
      assert_version a.row_version body.expected_version "ExecutionAttempt"
      >> (assert_all_unchanged (attempt_fields body.references a)
          >> (let a' = updated_attempt call body actor_id a in
              ok (
                attempt_resource a',
                record db {
                  attempts = update_first (is_attempt a.execution_attempt_id) (λ _. a') db.attempts;
                  session =
                      flush (audit call (attempt_updated body project_id actor_id a') db.session);
                  records =
                      complete_record call 200
                        (("execution_attempt_id", a.execution_attempt_id) ∷ []) r db.records;
                },
              )))

-- A row whose project is set, with that project.
abbrev pub owned_attempt : Option ExecutionAttempt → Result (ExecutionAttempt × String)
owned_attempt none = err (not_found "ExecutionAttempt does not exist.")
owned_attempt (some a) =
    found (not_found "ExecutionAttempt does not exist.") a.project_id >>= λ project_id.
    ok (a, project_id)
