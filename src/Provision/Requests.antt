-- ===== src/Provision/Requests.antt =====
-- The bodies and answers of the owner service (execution_owner_schemas.py).
use ai_auto_test_platform.Prelude.{ℕ, String, Option}
use ai_auto_test_platform.Owner.Rows.{Status, RunTask, ExecutionAttempt}

pub record CreateTask : Type 0 where
  pub expected_version : Option ℕ
  pub reason : Option String
  pub run_task_id : Option String
  pub display_name : Option String
  pub project_id : Option String
  pub idempotency_key : Option String
  pub case_suite_id : Option String
  pub environment_id : Option String
  pub task_type : String
  pub task_state : Option String
  pub final_result : String

pub record UpdateTask : Type 0 where
  pub expected_version : ℕ
  pub reason : Option String
  pub display_name : Option String
  pub project_id : Option String
  pub idempotency_key : Option String
  pub case_suite_id : Option String
  pub environment_id : Option String
  pub task_state : Option String
  pub final_result : Option String

-- The references that both bodies of an attempt have.
pub record References : Type 0 where
  pub run_task_id : Option String
  pub attempt_no : Option String
  pub case_attempt_id : Option String
  pub runner_id : Option String
  pub configuration_snapshot_id : Option String
  pub execution_batch_id : Option String
  pub lease_id : Option String
  pub execution_lock_id : Option String

pub record CreateAttempt : Type 0 where
  pub expected_version : Option ℕ
  pub reason : Option String
  pub execution_attempt_id : Option String
  pub display_name : Option String
  pub references : References
  pub open references use *

pub record UpdateAttempt : Type 0 where
  pub expected_version : ℕ
  pub reason : Option String
  pub display_name : Option String
  pub references : References
  pub open references use *

pub record TaskResource : Type 0 where
  pub run_task_id : String
  pub display_name : Option String
  pub row_version : ℕ
  pub created_at : ℕ
  pub updated_at : ℕ
  pub project_id : Option String
  pub idempotency_key : Option String
  pub case_suite_id : Option String
  pub environment_id : String
  pub task_type : Option String
  pub lifecycle_status : Status
  pub task_state : String
  pub final_result : String

-- `_run_task_resource`
unfoldable pub task_resource : RunTask → TaskResource
task_resource t = record {
  run_task_id = t.run_task_id;
  display_name = t.display_name;
  row_version = t.row_version;
  created_at = t.created_at;
  updated_at = t.updated_at;
  project_id = t.project_id;
  idempotency_key = t.idempotency_key;
  case_suite_id = t.case_suite_id;
  environment_id = t.environment_id;
  task_type = t.task_type;
  lifecycle_status = t.lifecycle_status;
  task_state = t.task_state;
  final_result = t.final_result;
}

pub record AttemptResource : Type 0 where
  pub execution_attempt_id : String
  pub execution_binding_snapshot_id : Option String
  pub display_name : Option String
  pub row_version : ℕ
  pub created_at : ℕ
  pub updated_at : ℕ
  pub project_id : Option String
  pub run_task_id : Option String
  pub attempt_no : Option String
  pub case_attempt_id : Option String
  pub runner_id : String
  pub configuration_snapshot_id : Option String
  pub execution_batch_id : Option String
  pub lease_id : Option String
  pub execution_lock_id : Option String
  pub execution_status : String
  pub finalization_status : String
  pub lifecycle_status : Status

-- `_attempt_resource`
unfoldable pub attempt_resource : ExecutionAttempt → AttemptResource
attempt_resource a = record {
  execution_attempt_id = a.execution_attempt_id;
  execution_binding_snapshot_id = a.execution_binding_snapshot_id;
  display_name = a.display_name;
  row_version = a.row_version;
  created_at = a.created_at;
  updated_at = a.updated_at;
  project_id = a.project_id;
  run_task_id = a.run_task_id;
  attempt_no = a.attempt_no;
  case_attempt_id = a.case_attempt_id;
  runner_id = a.runner_id;
  configuration_snapshot_id = a.configuration_snapshot_id;
  execution_batch_id = a.execution_batch_id;
  lease_id = a.lease_id;
  execution_lock_id = a.execution_lock_id;
  execution_status = a.execution_status;
  finalization_status = a.finalization_status;
  lifecycle_status = a.lifecycle_status;
}
