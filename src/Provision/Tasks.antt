-- ===== src/Provision/Tasks.antt =====
-- The rows of RunTasks that the owner service writes, with the checks of `create_run_task` and
-- `update_run_task`.
pub mod Commands
use ai_auto_test_platform.Prelude.{
  ◌+◌, String, Option, none, some, List, [], ◌∷◌, Bool, true, false, not, ◌&&◌, ◌||◌, str_eq,
  if◌then◌else◌, Result, ok, err, ◌>>=◌, ◌>>◌, require,
}
use ai_auto_test_platform.Runtime.{Runtime}
use ai_auto_test_platform.Idempotency.{IdempotencyRecord, Claimed}
use ai_auto_test_platform.Owner.Rows.{RunTask, Dict, created, status_text, run_task}
use ai_auto_test_platform.Owner.Session.{new_ulid, flush}
use ai_auto_test_platform.Runners.Readiness.{is_text, is_some}
use ai_auto_test_platform.Runners.Rows.{Project}
use ai_auto_test_platform.Runners.Slots.{first, update_first}
use ai_auto_test_platform.Binding.Facts.{Environment}
use ai_auto_test_platform.Provision.Requests.{CreateTask, UpdateTask, TaskResource, task_resource}
use ai_auto_test_platform.Provision.Store.{
  Store, Texts, Service, Call, invalid_creation, not_found, state_conflict, found, is_task, task_of,
  complete_record, Evidence, audit, event, authenticated, claimed,
}
use ai_auto_test_platform.Provision.Guards.{
  required_id, scoped_business_key, assert_version, assert_task_unchanged, require_scoped_reference,
}

-- The two tests on the body before the transaction.
abbrev pub is_server_controlled : CreateTask → Bool
is_server_controlled body =
    is_some body.run_task_id || (is_some body.expected_version || is_some body.idempotency_key)

abbrev pub is_initial : CreateTask → Bool
is_initial body = state body.task_state && str_eq body.final_result "UNKNOWN"
  where
    state : Option String → Bool
    state none = true
    state (some s) = str_eq s "CREATED"

abbrev pub project_active : Option Project → Bool
project_active none = false
project_active (some p) = str_eq p.lifecycle_status "ACTIVE"

abbrev pub environment_active : String → Option Environment → Bool
environment_active project_id none = false
environment_active project_id (some e) =
    is_text e.project_id project_id
    && (str_eq e.lifecycle_status "ACTIVE" && str_eq e.enablement_state "ENABLED")

abbrev pub project_of : String → Store → Option Project
project_of id db = first (λ (p : Project). str_eq p.project_id id) db.projects

abbrev pub environment_of : String → Store → Option Environment
environment_of id db = first (λ (e : Environment). str_eq e.environment_id id) db.environments

abbrev pub suite_in_project : Option String → String → Store → Result (Unit {0})
suite_in_project none project_id db = ok tt
suite_in_project (some id) project_id db =
    require_scoped_reference "atp_case_suite" id project_id "CaseSuite" none db

unfoldable pub new_task :
    ⦃tx : Texts⦄ → Call → CreateTask → String → String → String → String → RunTask
new_task call body project_id environment_id actor_id id = record {
  run_task_id = id;
  lifecycle = record {
    project_id = some project_id;
    lifecycle_status = created;
    row_version = 0;
    updated_at = call.now;
    updated_by = some actor_id;
  };
  idempotency_key = some (scoped_business_key project_id call.key);
  case_suite_id = body.case_suite_id;
  environment_id = environment_id;
  task_type = some body.task_type;
  task_state = "CREATED";
  final_result = "UNKNOWN";
  display_name = body.display_name;
  created_at = call.now;
  created_by = some actor_id;
}

abbrev pub task_created : CreateTask → String → String → RunTask → Evidence
task_created body project_id actor_id task = record {
  project_id = project_id;
  aggregate_type = run_task;
  aggregate_id = task.run_task_id;
  operation = "create_run_task";
  action = "RUN_TASK_CREATED";
  actor_id = actor_id;
  previous = none;
  new = some created;
  reason = body.reason;
}

abbrev pub task_payload : RunTask → List (String × Option String)
task_payload t =
    ("run_task_id", some t.run_task_id)
    ∷ ("project_id", t.project_id)
    ∷ ("environment_id", some t.environment_id)
    ∷ ("case_suite_id", t.case_suite_id)
    ∷ ("task_type", t.task_type)
    ∷ ("lifecycle_status", some (status_text t.lifecycle_status))
    ∷ ("task_state", some t.task_state)
    ∷ []

module _ ⦃rt : Runtime⦄ where
  -- The row of a new task is written, then its evidence, and the record is completed.
  unfoldable pub insert_task :
      Call
      → CreateTask
      → String
      → String
      → IdempotencyRecord Dict
      → (String → RunTask)
      → Store
      → RunTask × Store
  insert_task call body project_id actor_id r make db =
      let (id, session) = new_ulid db.session in
      let task = make id in
      let session' = audit call (task_created body project_id actor_id task) (flush session) in
      let session'' = event call id project_id "run_task.created" (task_payload task) session' in
      (
        task,
        record db {
          tasks = task ∷ db.tasks;
          session = flush session'';
          records = complete_record call 202 (("run_task_id", id) ∷ []) r db.records;
        },
      )

  unfoldable pub create_fresh :
      ⦃tx : Texts⦄
      → Call
      → CreateTask
      → String
      → String
      → String
      → IdempotencyRecord Dict
      → Store
      → Result (TaskResource × Store)
  create_fresh call body project_id environment_id actor_id r db =
      require (project_active (project_of project_id db))
        (state_conflict "Project must exist and be ACTIVE.")
      >> (require (environment_active project_id (environment_of environment_id db))
            (state_conflict "Environment must belong to the Project and be ACTIVE and ENABLED.")
          >> (suite_in_project body.case_suite_id project_id db
              >> (let (task, db') =
                    insert_task call body project_id actor_id r
                      (new_task call body project_id environment_id actor_id) db in
                  ok (task_resource task, db'))))

  abbrev pub task_updated : UpdateTask → String → String → RunTask → Evidence
  task_updated body project_id actor_id task = record {
    project_id = project_id;
    aggregate_type = run_task;
    aggregate_id = task.run_task_id;
    operation = "update_run_task";
    action = "RUN_TASK_UPDATED";
    actor_id = actor_id;
    previous = some task.lifecycle_status;
    new = some task.lifecycle_status;
    reason = body.reason;
  }

  -- The row after an update.
  abbrev pub updated_task : Call → UpdateTask → String → RunTask → RunTask
  updated_task call body actor_id task = record task {
    display_name = body.display_name;
    lifecycle = record task.lifecycle {
      row_version = task.row_version + 1;
      updated_at = call.now;
      updated_by = some actor_id;
    };
  }

  unfoldable pub update_fresh :
      Call
      → UpdateTask
      → String
      → String
      → IdempotencyRecord Dict
      → RunTask
      → Store
      → Result (TaskResource × Store)
  update_fresh call body project_id actor_id r task db =
      assert_version task.row_version body.expected_version "RunTask"
      >> (assert_task_unchanged body task
          >> (let task' = updated_task call body actor_id task in
              ok (
                task_resource task',
                record db {
                  tasks = update_first (is_task task.run_task_id) (λ _. task') db.tasks;
                  session =
                      flush (audit call (task_updated body project_id actor_id task') db.session);
                  records =
                      complete_record call 200 (("run_task_id", task.run_task_id) ∷ []) r
                        db.records;
                },
              )))

-- `(record.response_json or {}).get(key, "")`
unfoldable pub dict_get : String → Dict → String
dict_get key [] = ""
dict_get key ((k, v) ∷ rest) = if str_eq k key then v else dict_get key rest

abbrev pub response_id : String → Option Dict → String
response_id key none = ""
response_id key (some json) = dict_get key json

-- A row whose project is set, with that project.
abbrev pub owned_task : Option RunTask → Result (RunTask × String)
owned_task none = err (not_found "RunTask does not exist.")
owned_task (some task) =
    found (not_found "RunTask does not exist.") task.project_id >>= λ project_id.
    ok (task, project_id)
