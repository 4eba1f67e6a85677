-- ===== src/Owner/Endings.antt =====
-- The last calls of a RunTask's life, and the whole of it.
use ai_auto_test_platform.Prelude.{
  ℕ, ◌+◌, ◌≡◌, refl, ap, sym, ◌∙◌, String, List, [], ◌∷◌, arith, Result, ◌>>=◌, Returns,
  Returns-bind, Returns-mono, Returns-if, false≢true,
}
use ai_auto_test_platform.Runtime.{Runtime}
use ai_auto_test_platform.Owner.Rows.{
  Status, created, snapshotted, validating, waiting_resource, dispatching, preparing, is_preparing,
  running, is_running, canceling, completed, Outcome, RunTask, Dict,
}
use ai_auto_test_platform.Owner.Session.{Session}
use ai_auto_test_platform.Owner.Transition.{Command}
use ai_auto_test_platform.Owner.Task.{
  task_edge, prepare_run_task, run_run_task, run_running, complete_run_task, complete_running,
  cancel_edge, completed_edge, prepare_from, preparation_path, preparation_index,
}
use ai_auto_test_platform.Owner.Histories.{
  Call, prepares, runs, completes, call_task, call_tasks, commit,
}
use ai_auto_test_platform.Owner.Completion.{
  HasProject, OneEdge, task_targets, task_edge-OneEdge, Passed, prepare_run_task-Passed,
}

-- The edges and the version steps of a completion, and the final texts.
abbrev pub ending : Outcome → List Status → List Status
ending Outcome.cancelled older = completed ∷ canceling ∷ older
ending _ older = completed ∷ older

abbrev pub ending_steps : Outcome → ℕ
ending_steps Outcome.cancelled = 2
ending_steps _ = 1

abbrev pub ending_state : Outcome → String
ending_state Outcome.cancelled = "CANCELED"
ending_state _ = "COMPLETED"

abbrev pub ending_result : Outcome → String
ending_result Outcome.succeeded = "PASSED"
ending_result Outcome.cancelled = "CANCELED"
ending_result _ = "FAILED"

pub record Ended (outcome : Outcome) (task : RunTask) (db : Session) (w : RunTask × Session)
    : Type 0 where
  pub status : w.0.lifecycle_status ≡ completed
  pub version : w.0.row_version ≡ task.row_version + ending_steps outcome
  pub state : w.0.task_state ≡ ending_state outcome
  pub result : w.0.final_result ≡ ending_result outcome
  pub reports : task_targets w ≡ ending outcome (task_targets (task, db))

-- The row as `run_run_task` writes it before its edge.
abbrev started : RunTask → RunTask
started task = record task { task_state = "RUNNING"; final_result = "UNKNOWN" }

module _ ⦃rt : Runtime⦄ (c : Command) (summary : Dict) where
  same_project :
      {task : RunTask} (task' : RunTask)
      → task'.project_id ≡ task.project_id
      → HasProject task
      → HasProject task'
  same_project task' e h = record {
    project = h.project;
    stored = e ∙ h.stored;
    nonempty = h.nonempty;
  }

  run_run_task-OneEdge :
      (task : RunTask) (db : Session)
      → task.lifecycle_status ≡ preparing
      → HasProject task
      → Returns (OneEdge running (started task) db) (run_run_task c summary task db)
  unfolding run_run_task run_running
  run_run_task-OneEdge task db e h =
      Returns-if _ (is_preparing task.lifecycle_status) _ _
        (λ _. task_edge-OneEdge c _ _ (started task) db (same_project _ refl h))
        λ f. absurd (false≢true (sym f ∙ ap is_preparing e))

  completed_edge-OneEdge :
      (task : RunTask) (db : Session)
      → HasProject task
      → Returns (OneEdge completed task db) (completed_edge c summary task db)
  unfolding completed_edge
  completed_edge-OneEdge task db h = task_edge-OneEdge c _ _ task db h

  complete_running-Ended :
      (outcome : Outcome) (task : RunTask) (db : Session)
      → HasProject task
      → Returns (Ended outcome task db) (complete_running c outcome summary task db)
  unfolding complete_running cancel_edge
  complete_running-Ended Outcome.cancelled task db h =
      Returns-bind (OneEdge canceling task db) _ (task_edge c _ _ task db) _
        (task_edge-OneEdge c _ _ task db h)
        λ w one.
          let task' : RunTask = record (w.0) {
            task_state = "CANCELED";
            final_result = "CANCELED";
          } in
          Returns-mono (OneEdge completed task' w.1) _ (completed_edge c summary task' w.1)
            (completed_edge-OneEdge task' w.1 (same_project task' one.project_id h))
            λ v last. record {
              status = last.status;
              version = omega (arith, last.version, one.version);
              state = last.state;
              result = last.result;
              reports = last.reports ∙ ap (λ r. completed ∷ r) one.reports;
            }
  complete_running-Ended Outcome.succeeded task db h =
      let task' : RunTask = record task { task_state = "COMPLETED"; final_result = "PASSED" } in
      Returns-mono (OneEdge completed task' db) _ (completed_edge c summary task' db)
        (completed_edge-OneEdge task' db (same_project task' refl h))
        λ w one. record {
          status = one.status;
          version = one.version;
          state = one.state;
          result = one.result;
          reports = one.reports;
        }
  complete_running-Ended _ task db h =
      let task' : RunTask = record task { task_state = "COMPLETED"; final_result = "FAILED" } in
      Returns-mono (OneEdge completed task' db) _ (completed_edge c summary task' db)
        (completed_edge-OneEdge task' db (same_project task' refl h))
        λ w one. record {
          status = one.status;
          version = one.version;
          state = one.state;
          result = one.result;
          reports = one.reports;
        }

  -- A running task of a project is completed, whatever the outcome: through CANCELING if it was
  -- cancelled and at once otherwise, with one event and one version for each edge, with PASSED
  -- exactly for the outcome SUCCEEDED, CANCELED for CANCELLED and FAILED for any other.
  pub complete_run_task-Ended :
      (outcome : Outcome) (task : RunTask) (db : Session)
      → task.lifecycle_status ≡ running
      → HasProject task
      → Returns (Ended outcome task db) (complete_run_task c outcome summary task db)
  unfolding complete_run_task
  complete_run_task-Ended outcome task db e h =
      Returns-if _ (is_running task.lifecycle_status) _ _
        (λ _. complete_running-Ended outcome task db h)
        λ f. absurd (false≢true (sym f ∙ ap is_running e))

-- The three calls in a row, each in the state that the one before it left.
pub whole_life :
    ⦃rt : Runtime⦄ → Command → Dict → Outcome → RunTask → Session → Result (RunTask × Session)
whole_life c summary outcome task db = do
  prepared ← prepare_run_task c summary task db
  started ← run_run_task c summary prepared.0 prepared.1
  complete_run_task c outcome summary started.0 started.1

abbrev pub life : Outcome → List Status → List Status
life outcome older =
    ending outcome
      (running ∷ preparing ∷ dispatching ∷ waiting_resource ∷ validating ∷ snapshotted ∷ older)

-- Preparing, running and completing a new task of a project never fails, and its events are all the
-- stages of LC-035 in order; the version rises by seven, or by eight for a cancelled task.
pub whole_life-completes :
    ⦃rt : Runtime⦄ (c : Command) (summary : Dict) (outcome : Outcome) (task : RunTask)
    (db : Session)
    → task.lifecycle_status ≡ created
    → HasProject task
    → Returns
        (λ w.
          (w.0.lifecycle_status ≡ completed)
          × (w.0.row_version ≡ task.row_version + 6 + ending_steps outcome)
          × (w.0.final_result ≡ ending_result outcome)
          × (task_targets w ≡ life outcome (task_targets (task, db))))
        (whole_life c summary outcome task db)
unfolding whole_life
whole_life-completes c summary outcome task db e h =
    Returns-bind (Passed preparation_path task db) _ (prepare_run_task c summary task db) _
      (prepare_run_task-Passed c summary 0 task db (ap preparation_index e) h)
      λ (task₁, db₁) p.
        Returns-bind (OneEdge running (started task₁) db₁) _ (run_run_task c summary task₁ db₁) _
          (run_run_task-OneEdge c summary task₁ db₁ p.status
            (same_project c summary task₁ p.project_id h))
          λ (task₂, db₂) q.
            Returns-mono (Ended outcome task₂ db₂) _ (complete_run_task c outcome summary task₂ db₂)
              (complete_run_task-Ended c summary outcome task₂ db₂ q.status
                (same_project c summary task₂ (q.project_id ∙ p.project_id) h))
              λ w r. (
                r.status,
                omega (arith, r.version, q.version, p.version),
                r.result,
                r.reports ∙ ap (ending outcome) (q.reports ∙ ap (λ t. running ∷ t) p.reports),
              )

call_task-completed :
    ⦃rt : Runtime⦄ (call : Call) (task : RunTask) (db : Session)
    → task.lifecycle_status ≡ completed
    → commit (call_task call (task, db)) (task, db) ≡ (task, db)
unfolding call_task prepare_run_task prepare_from run_run_task complete_run_task
call_task-completed (prepares c summary) task db e = ground arith
call_task-completed (runs c summary) task db e = ground arith
call_task-completed (completes c outcome summary) task db e = ground arith

-- A completed RunTask is final: no sequence of lifecycle calls changes it or its evidence.
pub completed_absorbs :
    ⦃rt : Runtime⦄ (calls : List Call) (task : RunTask) (db : Session)
    → task.lifecycle_status ≡ completed
    → call_tasks calls (task, db) ≡ (task, db)
unfolding call_tasks
completed_absorbs [] task db e = refl
completed_absorbs (call ∷ calls) task db e =
    rw (call_task-completed call task db e) (completed_absorbs calls task db e)
