-- ===== src/Provision/Attempts/Commands.antt =====
-- The commands on ExecutionAttempts as transactions: `create_execution_attempt`,
-- `get_execution_attempt` and `update_execution_attempt`.
use ai_auto_test_platform.Prelude.{
  String, not, ◌||◌, if◌then◌else◌, Result, ok, ◌>>=◌, ◌>>◌, require,
}
use ai_auto_test_platform.Runtime.{Runtime}
use ai_auto_test_platform.Idempotency.{Claimed}
use ai_auto_test_platform.Owner.Rows.{RunTask, ExecutionAttempt, Dict}
use ai_auto_test_platform.Runners.Readiness.{is_some}
use ai_auto_test_platform.Runners.Slots.{first}
use ai_auto_test_platform.Provision.Requests.{
  CreateAttempt, UpdateAttempt, AttemptResource, attempt_resource,
}
use ai_auto_test_platform.Provision.Store.{
  Store, Texts, Service, Call, invalid_creation, state_conflict, found, is_task, is_attempt,
  attempt_of, authenticated, claimed,
}
use ai_auto_test_platform.Provision.Guards.{required_id}
use ai_auto_test_platform.Provision.Tasks.{owned_task, response_id}
use ai_auto_test_platform.Provision.Attempts.{create_fresh, update_fresh, owned_attempt}

module _ ⦃rt : Runtime⦄ ⦃tx : Texts⦄ (service : Service) where
  open service use {authentication}

  abbrev pub create_claimed :
      Call
      → CreateAttempt
      → String
      → String
      → String
      → RunTask
      → Store
      → Claimed Dict
      → Result (AttemptResource × Store)
  create_claimed call body project_id runner_id actor_id task db (r, (replay, records)) =
      let db' : Store = record db { records = records } in
      if replay
      then (attempt_of (response_id "execution_attempt_id" r.response_json) db' >>= λ a.
          ok (attempt_resource a, db'))
      else create_fresh call body project_id runner_id actor_id r task db'

  unfoldable pub create_execution_attempt :
      Call → CreateAttempt → Store → Result (AttemptResource × Store)
  create_execution_attempt call body db = required_id body.run_task_id "run_task_id" >>= λ task_id.
      required_id body.runner_id "runner_id" >>= λ runner_id.
      require
        (not (
          is_some body.execution_attempt_id
          || (is_some body.expected_version || is_some body.attempt_no)))
        (invalid_creation "ExecutionAttempt identity/version/attempt number are server controlled.")
      >> (owned_task (first (is_task task_id) db.tasks) >>= λ (task, project_id).
          authenticated service call "create_execution_attempt" project_id "PROJECT_EDIT"
          >>= λ actor.
              claimed service call actor "create_execution_attempt" (tx.create_attempt_json body) db
              >>= λ claim.
                  create_claimed call body project_id runner_id (authentication.user_id actor) task
                    db claim)

  unfoldable pub get_execution_attempt : Call → String → Store → Result AttemptResource
  get_execution_attempt call id db = attempt_of id db >>= λ a.
      found (state_conflict "ExecutionAttempt has no Project owner.") a.project_id >>= λ project_id.
      authenticated service call "get_execution_attempt" project_id "PROJECT_VIEW" >>= λ _.
      ok (attempt_resource a)

  abbrev pub update_claimed :
      Call
      → UpdateAttempt
      → String
      → String
      → ExecutionAttempt
      → Store
      → Claimed Dict
      → Result (AttemptResource × Store)
  update_claimed call body project_id actor_id a db (r, (replay, records)) =
      let db' : Store = record db { records = records } in
      if replay
      then ok (attempt_resource a, db')
      else update_fresh call body project_id actor_id r a db'

  unfoldable pub update_execution_attempt :
      Call → String → UpdateAttempt → Store → Result (AttemptResource × Store)
  update_execution_attempt call id body db =
      owned_attempt (first (is_attempt id) db.attempts) >>= λ (a, project_id).
      authenticated service call "update_execution_attempt" project_id "PROJECT_EDIT" >>= λ actor.
      claimed service call actor "update_execution_attempt" (tx.update_attempt_json id body) db
      >>= λ claim. update_claimed call body project_id (authentication.user_id actor) a db claim
