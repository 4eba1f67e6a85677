-- ===== src/Provision/Served.antt =====
-- Requests to the owner service, one transaction after the other.
use ai_auto_test_platform.Prelude.{
  String, List, [], ◌∷◌, not, ◌||◌, Result, ok, err, Ensures, Ensures-bind_eq, Ensures-require,
  Ensures-if,
}
use ai_auto_test_platform.Runtime.{Runtime}
use ai_auto_test_platform.Idempotency.{Claimed}
use ai_auto_test_platform.Owner.Rows.{RunTask, Dict}
use ai_auto_test_platform.Runners.Readiness.{is_some}
use ai_auto_test_platform.Runners.Slots.{first}
use ai_auto_test_platform.Provision.Requests.{CreateTask, UpdateTask, CreateAttempt, UpdateAttempt}
use ai_auto_test_platform.Provision.Store.{
  Store, Texts, Service, Call, is_task, is_attempt, task_of, attempt_of, authenticated, claimed,
}
use ai_auto_test_platform.Provision.Guards.{required_id}
use ai_auto_test_platform.Provision.Tasks.Commands as TasksCommands
use ai_auto_test_platform.Provision.Tasks.{
  is_server_controlled, is_initial, owned_task, response_id,
}
use ai_auto_test_platform.Provision.Tasks.Commands.{create_run_task, update_run_task}
use ai_auto_test_platform.Provision.Attempts.Commands as AttemptsCommands
use ai_auto_test_platform.Provision.Attempts.{owned_attempt}
use ai_auto_test_platform.Provision.Attempts.Commands.{
  create_execution_attempt, update_execution_attempt,
}
use ai_auto_test_platform.Provision.Numbers.{IsNumbered}
use ai_auto_test_platform.Provision.Kept.{
  Numbers, create_task-keeps, update_task-keeps, create_fresh-keeps, update_fresh-keeps,
  owned_attempt-found,
}

-- The four commands that write.
pub data Request : Type 0 where
  creates_task : Call → CreateTask → Request
  updates_task : Call → String → UpdateTask → Request
  creates_attempt : Call → CreateAttempt → Request
  updates_attempt : Call → String → UpdateAttempt → Request

-- A transaction that raises leaves the store as it was.
abbrev pub committed : {A : Type 0} → Store → Result (A × Store) → Store
committed db (ok (answer, db')) = db'
committed db (err e) = db

module _ ⦃rt : Runtime⦄ ⦃tx : Texts⦄ (service : Service) where
  unfoldable pub serve : Request → Store → Store
  serve (creates_task call body) db = committed db (create_run_task service call body db)
  serve (updates_task call id body) db = committed db (update_run_task service call id body db)
  serve (creates_attempt call body) db =
      committed db (create_execution_attempt service call body db)
  serve (updates_attempt call id body) db =
      committed db (update_execution_attempt service call id body db)

  unfoldable pub serve_all : List Request → Store → Store
  serve_all [] db = db
  serve_all (request ∷ rest) db = serve_all rest (serve request db)

committed-IsNumbered :
    ⦃tx : Texts⦄ {A : Type 0} (db : Store) (m : Result (A × Store))
    → IsNumbered db.attempts
    → Ensures Numbers m
    → IsNumbered (committed db m).attempts
committed-IsNumbered db (ok (answer, db')) h k = k
committed-IsNumbered db (err e) h k = h

module _ ⦃rt : Runtime⦄ ⦃tx : Texts⦄ (service : Service) (call : Call) (db : Store)
    (h : IsNumbered db.attempts) where
  open service use {authentication}

  claimed_task :
      (body : CreateTask) (project_id environment_id actor_id : String) (claim : Claimed Dict)
      → Ensures Numbers (
          TasksCommands.create_claimed service call body project_id environment_id actor_id db
            claim)
  claimed_task body project_id environment_id actor_id (r, (replay, records)) =
      let db' : Store = record db { records = records } in
      Ensures-if Numbers replay _ _
        (λ _.
          Ensures-bind_eq Numbers (task_of (response_id "run_task_id" r.response_json) db') _
            λ _ _. h)
        λ _. create_task-keeps call body project_id environment_id actor_id r db' h

  claimed_attempt :
      (body : CreateAttempt) (project_id runner_id actor_id : String) (task : RunTask)
      (claim : Claimed Dict)
      → Ensures Numbers (
          AttemptsCommands.create_claimed service call body project_id runner_id actor_id task db
            claim)
  claimed_attempt body project_id runner_id actor_id task (r, (replay, records)) =
      let db' : Store = record db { records = records } in
      Ensures-if Numbers replay _ _
        (λ _.
          Ensures-bind_eq Numbers
            (attempt_of (response_id "execution_attempt_id" r.response_json) db') _ λ _ _. h)
        λ _. create_fresh-keeps call body project_id runner_id actor_id r task db' h

  create_run_task-keeps :
      (body : CreateTask) → Ensures Numbers (create_run_task service call body db)
  unfolding create_run_task
  create_run_task-keeps body =
      Ensures-bind_eq Numbers (required_id body.project_id "project_id") _ λ project_id _.
        Ensures-bind_eq Numbers (required_id body.environment_id "environment_id") _
          λ environment_id _. Ensures-require Numbers (not (is_server_controlled body)) _ _ λ _.
            Ensures-require Numbers (is_initial body) _ _ λ _.
              Ensures-bind_eq Numbers
                (authenticated service call "create_run_task" project_id "RUN_TASK_CREATE") _
                λ actor _.
                  Ensures-bind_eq Numbers
                    (claimed service call actor "create_run_task" (tx.create_task_json body) db) _
                    λ claim _.
                      claimed_task body project_id environment_id (authentication.user_id actor)
                        claim

  update_run_task-keeps :
      (id : String) (body : UpdateTask) → Ensures Numbers (update_run_task service call id body db)
  unfolding update_run_task
  update_run_task-keeps id body =
      Ensures-bind_eq Numbers (owned_task (first (is_task id) db.tasks)) _ λ (task, project_id) _.
        Ensures-bind_eq Numbers
          (authenticated service call "update_run_task" project_id "RUN_TASK_CREATE") _
          λ actor _.
            Ensures-bind_eq Numbers
              (claimed service call actor "update_run_task" (tx.update_task_json id body) db) _
              λ (r, (replay, records)) _.
                Ensures-if Numbers replay _ _ (λ _. h)
                  λ _.
                    update_task-keeps call body project_id (authentication.user_id actor) r task
                      (record db { records = records }) h

  create_execution_attempt-keeps :
      (body : CreateAttempt) → Ensures Numbers (create_execution_attempt service call body db)
  unfolding create_execution_attempt
  create_execution_attempt-keeps body =
      Ensures-bind_eq Numbers (required_id body.run_task_id "run_task_id") _ λ task_id _.
        Ensures-bind_eq Numbers (required_id body.runner_id "runner_id") _ λ runner_id _.
          Ensures-require Numbers
            (not (
              is_some body.execution_attempt_id
              || (is_some body.expected_version || is_some body.attempt_no)))
            _ _
            λ _.
              Ensures-bind_eq Numbers (owned_task (first (is_task task_id) db.tasks)) _
                λ (task, project_id) _.
                  Ensures-bind_eq Numbers
                    (authenticated service call "create_execution_attempt" project_id
                      "PROJECT_EDIT")
                    _
                    λ actor _.
                      Ensures-bind_eq Numbers
                        (claimed service call actor "create_execution_attempt"
                          (tx.create_attempt_json body) db)
                        _
                        λ claim _.
                          claimed_attempt body project_id runner_id (authentication.user_id actor)
                            task claim

  update_execution_attempt-keeps :
      (id : String) (body : UpdateAttempt)
      → Ensures Numbers (update_execution_attempt service call id body db)
  unfolding update_execution_attempt
  update_execution_attempt-keeps id body =
      Ensures-bind_eq Numbers (owned_attempt (first (is_attempt id) db.attempts)) _
        λ (a, project_id) e.
          Ensures-bind_eq Numbers
            (authenticated service call "update_execution_attempt" project_id "PROJECT_EDIT") _
            λ actor _.
              Ensures-bind_eq Numbers
                (claimed service call actor "update_execution_attempt"
                  (tx.update_attempt_json id body) db)
                _
                λ (r, (replay, records)) _.
                  Ensures-if Numbers replay _ _ (λ _. h)
                    λ _.
                      update_fresh-keeps call body project_id (authentication.user_id actor) r a
                        (record db { records = records })
                        (owned_attempt-found id db.attempts a project_id e) h

module _ ⦃rt : Runtime⦄ ⦃tx : Texts⦄ (service : Service) where
  serve-IsNumbered :
      (request : Request) (db : Store)
      → IsNumbered db.attempts
      → IsNumbered (serve service request db).attempts
  unfolding serve
  serve-IsNumbered (creates_task call body) db h =
      committed-IsNumbered db _ h (create_run_task-keeps service call db h body)
  serve-IsNumbered (updates_task call id body) db h =
      committed-IsNumbered db _ h (update_run_task-keeps service call db h id body)
  serve-IsNumbered (creates_attempt call body) db h =
      committed-IsNumbered db _ h (create_execution_attempt-keeps service call db h body)
  serve-IsNumbered (updates_attempt call id body) db h =
      committed-IsNumbered db _ h (update_execution_attempt-keeps service call db h id body)

  -- Whatever creations and updates of tasks and attempts are requested, in any order, with any bodies
  -- and whether they are answered, replayed or refused: if the attempts of each task were numbered 1,
  -- 2, 3 and so on in the order of their rows, without a gap or a repetition, they still are.
  pub serve_all-IsNumbered :
      (requests : List Request) (db : Store)
      → IsNumbered db.attempts
      → IsNumbered (serve_all service requests db).attempts
  unfolding serve_all
  serve_all-IsNumbered [] db h = h
  serve_all-IsNumbered (request ∷ rest) db h =
      serve_all-IsNumbered rest (serve service request db) (serve-IsNumbered request db h)
