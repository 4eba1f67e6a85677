-- ===== src/Owner/Attempt.antt =====
-- The ExecutionAttempt lifecycle LC-036: `prepare_execution_attempt`, `run_execution_attempt` and
-- `complete_execution_attempt` of execution_owner_transitions.py.
use ai_auto_test_platform.Prelude.{
  Option, none, some, [], ◌∷◌, Result, ok, err, runtime_error, concat, if◌then◌else◌, ◌>>=◌,
}
use ai_auto_test_platform.Runtime.{Runtime}
use ai_auto_test_platform.Owner.Rows.{
  is_created, is_preparing, is_running, preparing, running, passed, failed, canceled, completed,
  Outcome, outcome_text, execution_attempt, ExecutionAttempt, Dict,
}
use ai_auto_test_platform.Owner.Session.{Session}
use ai_auto_test_platform.Owner.Transition.{
  Command, Stage, dict_update, required_project, transition,
}
use ai_auto_test_platform.Owner.Task.{stage, got}

-- The `terminal` table: the result stage of an outcome.
abbrev pub terminal_stage : Outcome → Option Stage
terminal_stage Outcome.succeeded =
    some (stage passed "execution_attempt.passed" "EXECUTION_ATTEMPT_PASSED")
terminal_stage Outcome.failed =
    some (stage failed "execution_attempt.failed" "EXECUTION_ATTEMPT_FAILED")
terminal_stage Outcome.cancelled =
    some (stage canceled "execution_attempt.canceled" "EXECUTION_ATTEMPT_CANCELED")
terminal_stage (Outcome.other _) = none

module _ ⦃rt : Runtime⦄ where
  abbrev pub Step : Type 0
  Step = ExecutionAttempt → Session → Result (ExecutionAttempt × Session)

  unfoldable pub attempt_edge : Command → Stage → Dict → Step
  attempt_edge c st summary attempt db = do
    project ← required_project attempt.project_id "ExecutionAttempt"
    let (row, db') =
        transition c execution_attempt attempt.execution_attempt_id project st summary
          attempt.lifecycle db
    ok (record attempt { lifecycle = row }, db')

  abbrev pub status_summary : ExecutionAttempt → Dict → Dict
  status_summary attempt summary =
      dict_update (("execution_status", attempt.execution_status) ∷ []) summary

  unfoldable pub prepare_created : Command → Dict → Step
  prepare_created c summary attempt db =
      attempt_edge c (stage preparing "execution_attempt.preparing" "EXECUTION_ATTEMPT_PREPARING")
        (status_summary attempt summary) attempt db

  unfoldable pub prepare_execution_attempt : Command → Dict → Step
  prepare_execution_attempt c summary attempt db =
      if is_preparing attempt.lifecycle_status
      then ok (attempt, db)
      else if is_created attempt.lifecycle_status
      then prepare_created c summary attempt db
      else err (got "ExecutionAttempt cannot enter preparation from " attempt.lifecycle_status)

  unfoldable pub run_prepared : Command → Dict → Step
  run_prepared c summary attempt db =
      let attempt' : ExecutionAttempt = record attempt { execution_status = "RUNNING" } in
      attempt_edge c (stage running "execution_attempt.running" "EXECUTION_ATTEMPT_RUNNING")
        (status_summary attempt' summary) attempt' db

  unfoldable pub run_execution_attempt : Command → Dict → Step
  run_execution_attempt c summary attempt db =
      if is_preparing attempt.lifecycle_status
      then run_prepared c summary attempt db
      else err
          (got "ExecutionAttempt must be PREPARING before RUNNING, got " attempt.lifecycle_status)

  abbrev pub final_summary : ExecutionAttempt → Dict → Dict
  final_summary attempt summary =
      dict_update
        (("execution_status", attempt.execution_status)
          ∷ ("finalization_status", attempt.finalization_status)
          ∷ [])
        summary

  -- The result stage and then COMPLETED.
  unfoldable pub complete_through : Command → Outcome → Stage → Dict → Step
  complete_through c outcome result_stage summary attempt db = do
    let attempt₁ = record attempt { execution_status = outcome_text outcome }
    (attempt₂, db₂) ← attempt_edge c result_stage (final_summary attempt₁ summary) attempt₁ db
    let attempt₃ = record attempt₂ { finalization_status = "COMPLETED" }
    attempt_edge c (stage completed "execution_attempt.completed" "EXECUTION_ATTEMPT_COMPLETED")
        (final_summary attempt₃ summary) attempt₃ db₂

  -- `terminal` is the row of the table for the outcome, or None.
  unfoldable pub complete_result : Option Stage → Command → Outcome → Dict → Step
  complete_result none c outcome summary attempt db = err (
      runtime_error
        (concat "Unsupported ExecutionAttempt outcome: " (concat (outcome_text outcome) ".")))
  complete_result (some st) c outcome summary attempt db =
      complete_through c outcome st summary attempt db

  unfoldable pub complete_execution_attempt : Command → Outcome → Dict → Step
  complete_execution_attempt c outcome summary attempt db =
      if is_running attempt.lifecycle_status
      then complete_result (terminal_stage outcome) c outcome summary attempt db
      else err
          (got "ExecutionAttempt must be RUNNING before completion, got " attempt.lifecycle_status)
