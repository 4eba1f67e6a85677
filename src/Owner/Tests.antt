-- ===== src/Owner/Tests.antt =====
-- The theorems on the owner lifecycles at a concrete task, attempt and run of calls.
use ai_auto_test_platform.Prelude.{◌+◌, ◌≡◌, refl, none, some, List, [], ◌∷◌, length, Returns, drop}
use ai_auto_test_platform.Runtime.{Runtime}
use ai_auto_test_platform.Owner.Rows.{
  created, running, completed, RunTask, ExecutionAttempt, Lifecycle, Outcome,
}
use ai_auto_test_platform.Owner.Session.{Session, history}
use ai_auto_test_platform.Owner.Transition.{Command}
use ai_auto_test_platform.Owner.Task.{prepare_run_task, complete_run_task, preparation_path}
use ai_auto_test_platform.Owner.TaskTrail.{OnTrail}
use ai_auto_test_platform.Owner.AttemptTrail
use ai_auto_test_platform.Owner.Histories.{
  Call, prepares, runs, completes, call_tasks, call_attempts, task_origin, attempt_origin,
  call_tasks-follows_lifecycle, call_attempts-follows_lifecycle, call_tasks-sequences, Descending,
}
use ai_auto_test_platform.Owner.Completion.{
  HasProject, Passed, prepare_run_task-Passed, task_targets,
}
use ai_auto_test_platform.Owner.Endings.{
  Ended, complete_run_task-Ended, whole_life, whole_life-completes, completed_absorbs, life,
  ending_steps, ending_result,
}

abbrev runtime : Runtime
runtime = record {
  ulid = λ n. "01";
  refresh_token = λ n. "token";
  clock = λ n. n;
  sha256 = λ s. s;
  isoformat = λ n. "2026-07-01T00:00:00";
}

abbrev command : Command
command = record {
  actor_user_id = "user";
  operation_id = "run_execution";
  context = record { correlation_id = "c"; source_context = "test" };
  now = 7;
}

abbrev fresh_lifecycle : Lifecycle
fresh_lifecycle = record {
  project_id = some "project";
  lifecycle_status = created;
  row_version = 0;
  updated_at = 0;
  updated_by = none;
}

abbrev task : RunTask
task = record {
  run_task_id = "task";
  lifecycle = fresh_lifecycle;
  idempotency_key = none;
  case_suite_id = none;
  environment_id = "environment";
  task_type = none;
  task_state = "QUEUED";
  final_result = "UNKNOWN";
  display_name = none;
  created_at = 0;
  created_by = none;
}

abbrev running_task : RunTask
running_task = record task { lifecycle = record fresh_lifecycle { lifecycle_status = running } }

abbrev completed_task : RunTask
completed_task = record task { lifecycle = record fresh_lifecycle { lifecycle_status = completed } }

abbrev attempt : ExecutionAttempt
attempt = record {
  execution_attempt_id = "attempt";
  execution_binding_snapshot_id = none;
  lifecycle = fresh_lifecycle;
  run_task_id = some "task";
  attempt_no = none;
  case_attempt_id = none;
  runner_id = "runner";
  configuration_snapshot_id = none;
  execution_batch_id = none;
  lease_id = none;
  execution_lock_id = none;
  execution_status = "PENDING";
  finalization_status = "PENDING";
  display_name = none;
  created_at = 0;
  created_by = none;
}

abbrev session : Session
session = record { audits = []; outbox = []; pending_audits = []; pending_outbox = []; drawn = 0 }

abbrev calls : List Call
calls =
    prepares command []
    ∷ runs command []
    ∷ completes command Outcome.cancelled []
    ∷ runs command []
    ∷ []

task-HasProject : HasProject task
task-HasProject = record { project = "project"; stored = refl; nonempty = λ e. cc }

running_task-HasProject : HasProject running_task
running_task-HasProject = record { project = "project"; stored = refl; nonempty = λ e. cc }

call_tasks-follows_lifecycle_example :
    OnTrail
      (task_origin ⦃rt = runtime⦄ (task, session))
      (call_tasks ⦃rt = runtime⦄ calls (task, session))
call_tasks-follows_lifecycle_example =
    call_tasks-follows_lifecycle ⦃rt = runtime⦄ calls (task, session)

call_attempts-follows_lifecycle_example :
    AttemptTrail.OnTrail
      (attempt_origin ⦃rt = runtime⦄ (attempt, session))
      (call_attempts ⦃rt = runtime⦄ calls (attempt, session))
call_attempts-follows_lifecycle_example =
    call_attempts-follows_lifecycle ⦃rt = runtime⦄ calls (attempt, session)

call_tasks-sequences_example :
    let w' = call_tasks ⦃rt = runtime⦄ calls (task, session) in
    Descending (history w'.0.run_task_id w'.1)
    × (w'.0.row_version + length (history task.run_task_id session)
        ≡ task.row_version + length (history w'.0.run_task_id w'.1))
call_tasks-sequences_example = call_tasks-sequences ⦃rt = runtime⦄ calls (task, session) tt

prepare_run_task-Passed_example :
    Returns
      (Passed (drop 0 preparation_path) task session)
      (prepare_run_task ⦃rt = runtime⦄ command [] task session)
prepare_run_task-Passed_example =
    prepare_run_task-Passed ⦃rt = runtime⦄ command [] 0 task session refl task-HasProject

complete_run_task-Ended_example :
    Returns
      (Ended Outcome.cancelled running_task session)
      (complete_run_task ⦃rt = runtime⦄ command Outcome.cancelled [] running_task session)
complete_run_task-Ended_example =
    complete_run_task-Ended ⦃rt = runtime⦄ command [] Outcome.cancelled running_task session refl
      running_task-HasProject

whole_life-completes_example :
    Returns
      (λ w.
        (w.0.lifecycle_status ≡ completed)
        × (w.0.row_version ≡ task.row_version + 6 + ending_steps Outcome.cancelled)
        × (w.0.final_result ≡ ending_result Outcome.cancelled)
        × (task_targets w ≡ life Outcome.cancelled (task_targets (task, session))))
      (whole_life ⦃rt = runtime⦄ command [] Outcome.cancelled task session)
whole_life-completes_example =
    whole_life-completes ⦃rt = runtime⦄ command [] Outcome.cancelled task session refl
      task-HasProject

completed_absorbs_example :
    call_tasks ⦃rt = runtime⦄ calls (completed_task, session) ≡ (completed_task, session)
completed_absorbs_example = completed_absorbs ⦃rt = runtime⦄ calls completed_task session refl
