-- ===== src/Provision/Tasks/Commands.antt =====
-- The commands on RunTasks as transactions: `create_run_task`, `get_run_task` and `update_run_task`.
use ai_auto_test_platform.Prelude.{String, not, if◌then◌else◌, Result, ok, ◌>>=◌, ◌>>◌, require}
use ai_auto_test_platform.Runtime.{Runtime}
use ai_auto_test_platform.Idempotency.{Claimed}
use ai_auto_test_platform.Owner.Rows.{RunTask, Dict}
use ai_auto_test_platform.Runners.Slots.{first}
use ai_auto_test_platform.Provision.Requests.{CreateTask, UpdateTask, TaskResource, task_resource}
use ai_auto_test_platform.Provision.Store.{
  Store, Texts, Service, Call, invalid_creation, state_conflict, found, is_task, task_of,
  authenticated, claimed,
}
use ai_auto_test_platform.Provision.Guards.{required_id}
use ai_auto_test_platform.Provision.Tasks.{
  is_server_controlled, is_initial, create_fresh, update_fresh, response_id, owned_task,
}

module _ ⦃rt : Runtime⦄ ⦃tx : Texts⦄ (service : Service) where
  open service use {authentication}

  abbrev pub create_claimed :
      Call
      → CreateTask
      → String
      → String
      → String
      → Store
      → Claimed Dict
      → Result (TaskResource × Store)
  create_claimed call body project_id environment_id actor_id db (r, (replay, records)) =
      let db' : Store = record db { records = records } in
      if replay
      then (task_of (response_id "run_task_id" r.response_json) db' >>= λ task.
          ok (task_resource task, db'))
      else create_fresh call body project_id environment_id actor_id r db'

  unfoldable pub create_run_task : Call → CreateTask → Store → Result (TaskResource × Store)
  create_run_task call body db = required_id body.project_id "project_id" >>= λ project_id.
      required_id body.environment_id "environment_id" >>= λ environment_id.
      require (not (is_server_controlled body)) (
        invalid_creation
          "RunTask identity/version/idempotency are server controlled; use Idempotency-Key.")
      >> (require (is_initial body)
            (invalid_creation "RunTask creation must start in CREATED/UNKNOWN.")
          >> (authenticated service call "create_run_task" project_id "RUN_TASK_CREATE" >>= λ actor.
              claimed service call actor "create_run_task" (tx.create_task_json body) db
              >>= λ claim.
                  create_claimed call body project_id environment_id (authentication.user_id actor)
                    db claim))

  unfoldable pub get_run_task : Call → String → Store → Result TaskResource
  get_run_task call id db = task_of id db >>= λ task.
      found (state_conflict "RunTask has no Project owner.") task.project_id >>= λ project_id.
      authenticated service call "get_run_task" project_id "PROJECT_VIEW" >>= λ _.
      ok (task_resource task)

  abbrev pub update_claimed :
      Call
      → UpdateTask
      → String
      → String
      → RunTask
      → Store
      → Claimed Dict
      → Result (TaskResource × Store)
  update_claimed call body project_id actor_id task db (r, (replay, records)) =
      let db' : Store = record db { records = records } in
      if replay
      then ok (task_resource task, db')
      else update_fresh call body project_id actor_id r task db'

  unfoldable pub update_run_task :
      Call → String → UpdateTask → Store → Result (TaskResource × Store)
  update_run_task call id body db =
      owned_task (first (is_task id) db.tasks) >>= λ (task, project_id).
      authenticated service call "update_run_task" project_id "RUN_TASK_CREATE" >>= λ actor.
      claimed service call actor "update_run_task" (tx.update_task_json id body) db >>= λ claim.
      update_claimed call body project_id (authentication.user_id actor) task db claim
