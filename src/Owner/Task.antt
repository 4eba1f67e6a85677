-- ===== src/Owner/Task.antt =====
-- The RunTask lifecycle LC-035: `prepare_run_task`, `run_run_task` and `complete_run_task` of
-- execution_owner_transitions.py. An optional `change_summary` that is not given is the empty one.
use ai_auto_test_platform.Prelude.{
  ℕ, String, Option, none, some, List, [], ◌∷◌, drop, length, leb, if◌then◌else◌, Error, Result, ok,
  err, runtime_error, concat, ◌>>=◌,
}
use ai_auto_test_platform.Runtime.{Runtime}
use ai_auto_test_platform.Owner.Rows.{
  Status, created, snapshotted, validating, waiting_resource, dispatching, preparing, running,
  canceling, completed, status_text, is_preparing, is_running, Outcome, run_task, RunTask, Dict,
}
use ai_auto_test_platform.Owner.Session.{Session}
use ai_auto_test_platform.Owner.Transition.{
  Command, Stage, dict_update, required_project, transition,
}

abbrev pub stage : Status → String → String → Stage
stage target event_type action = record {
  target = target;
  event_type = event_type;
  action = action;
}

-- `_RUN_TASK_PREPARATION_PATH`
abbrev pub preparation_path : List Stage
preparation_path =
    stage snapshotted "run_task.snapshotted" "RUN_TASK_SNAPSHOTTED"
    ∷ stage validating "run_task.validating" "RUN_TASK_VALIDATING"
    ∷ stage waiting_resource "run_task.waiting_resource" "RUN_TASK_WAITING_RESOURCE"
    ∷ stage dispatching "run_task.dispatching" "RUN_TASK_DISPATCHING"
    ∷ stage preparing "run_task.preparing" "RUN_TASK_PREPARING"
    ∷ []

-- `_RUN_TASK_PREPARATION_ORDER.index`, where `none` is the ValueError.
abbrev pub preparation_index : Status → Option ℕ
preparation_index created = some 0
preparation_index snapshotted = some 1
preparation_index validating = some 2
preparation_index waiting_resource = some 3
preparation_index dispatching = some 4
preparation_index preparing = some 5
preparation_index _ = none

-- The text that a stage leaves in `task_state` before its transition.
abbrev pub stage_task_state : Status → String → String
stage_task_state waiting_resource s = "WAITING_RESOURCE"
stage_task_state _ s = s

-- The message of a lifecycle guard, `f"{text}{status}."`.
abbrev pub got : String → Status → Error
got text s = runtime_error (concat text (concat (status_text s) "."))

module _ ⦃rt : Runtime⦄ where
  -- One `_transition` of a task whose `task_state` and `final_result` have been written.
  unfoldable pub task_edge : Command → Stage → Dict → RunTask → Session → Result (RunTask × Session)
  task_edge c st summary task db = do
    project ← required_project task.project_id "RunTask"
    let (row, db') = transition c run_task task.run_task_id project st summary task.lifecycle db
    ok (record task { lifecycle = row }, db')

  -- The loop over the stages that are left.
  unfoldable pub prepare_stages :
      Command → Dict → List Stage → RunTask → Session → Result (RunTask × Session)
  prepare_stages c summary [] task db = ok (task, db)
  prepare_stages c summary (st ∷ rest) task db =
      let task' : RunTask = record task {
        task_state = stage_task_state st.target task.task_state;
      } in
      task_edge c st (dict_update (("task_state", task'.task_state) ∷ []) summary) task' db
      >>= λ (next, db'). prepare_stages c summary rest next db'

  -- `start_index` is the place of the task's status in the order, or `none`.
  unfoldable pub prepare_from :
      Option ℕ → Command → Dict → RunTask → Session → Result (RunTask × Session)
  prepare_from none c summary task db =
      err (got "RunTask cannot enter preparation from " task.lifecycle_status)
  prepare_from (some start_index) c summary task db =
      if leb (length preparation_path) start_index
      then ok (task, db)
      else prepare_stages c summary (drop start_index preparation_path) task db

  unfoldable pub prepare_run_task : Command → Dict → RunTask → Session → Result (RunTask × Session)
  unfolding prepare_from
  prepare_run_task c summary task db =
      if is_preparing task.lifecycle_status
      then ok (task, db)
      else prepare_from (preparation_index task.lifecycle_status) c summary task db

  unfoldable pub run_running : Command → Dict → RunTask → Session → Result (RunTask × Session)
  run_running c summary task db =
      let task' : RunTask = record task { task_state = "RUNNING"; final_result = "UNKNOWN" } in
      task_edge c (stage running "run_task.running" "RUN_TASK_RUNNING")
        (dict_update (("task_state", task'.task_state) ∷ []) summary) task' db

  unfoldable pub run_run_task : Command → Dict → RunTask → Session → Result (RunTask × Session)
  run_run_task c summary task db =
      if is_preparing task.lifecycle_status
      then run_running c summary task db
      else err (got "RunTask must be PREPARING before RUNNING, got " task.lifecycle_status)

  unfoldable pub cancel_edge : Command → Dict → RunTask → Session → Result (RunTask × Session)
  cancel_edge c summary task db =
      task_edge c (stage canceling "run_task.canceling" "RUN_TASK_CANCELING")
        (dict_update (("task_state", task.task_state) ∷ []) summary) task db

  unfoldable pub completed_edge : Command → Dict → RunTask → Session → Result (RunTask × Session)
  completed_edge c summary task db =
      task_edge c (stage completed "run_task.completed" "RUN_TASK_COMPLETED")
        (dict_update (("task_state", task.task_state) ∷ ("final_result", task.final_result) ∷ [])
          summary)
        task db

  unfoldable pub complete_running :
      Command → Outcome → Dict → RunTask → Session → Result (RunTask × Session)
  complete_running c Outcome.cancelled summary task db = do
    (task', db') ← cancel_edge c summary task db
    completed_edge c summary (record task' { task_state = "CANCELED"; final_result = "CANCELED" })
        db'
  complete_running c Outcome.succeeded summary task db =
      completed_edge c summary (record task { task_state = "COMPLETED"; final_result = "PASSED" })
        db
  complete_running c _ summary task db =
      completed_edge c summary (record task { task_state = "COMPLETED"; final_result = "FAILED" })
        db

  unfoldable pub complete_run_task :
      Command → Outcome → Dict → RunTask → Session → Result (RunTask × Session)
  complete_run_task c outcome summary task db =
      if is_running task.lifecycle_status
      then complete_running c outcome summary task db
      else err (got "RunTask must be RUNNING before completion, got " task.lifecycle_status)
