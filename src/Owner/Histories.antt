-- ===== src/Owner/Histories.antt =====
-- Any sequence of lifecycle calls on one owner. A call that raises rolls its transaction back.
use ai_auto_test_platform.Prelude.{
  ℕ, ◌+◌, ◌<◌, ◌≡◌, refl, List, [], ◌∷◌, length, arith, Result, ok, err, Ensures, All,
}
use ai_auto_test_platform.Runtime.{Runtime}
use ai_auto_test_platform.Owner.Rows.{
  Status, AggregateType, Outcome, Dict, RunTask, ExecutionAttempt, OutboxEvent,
}
use ai_auto_test_platform.Owner.Session.{Session, history}
use ai_auto_test_platform.Owner.Transition.{Command}
use ai_auto_test_platform.Owner.Task.{prepare_run_task, run_run_task, complete_run_task}
use ai_auto_test_platform.Owner.Attempt.{
  prepare_execution_attempt, run_execution_attempt, complete_execution_attempt,
}
use ai_auto_test_platform.Owner.Trail.{Trail, start, step, top}
use ai_auto_test_platform.Owner.TaskTrail.{
  Origin, OnTrail, prepare_run_task-OnTrail, run_run_task-OnTrail, complete_run_task-OnTrail,
}
use ai_auto_test_platform.Owner.AttemptTrail
use ai_auto_test_platform.Owner.AttemptTrail.{
  prepare_execution_attempt-OnTrail, run_execution_attempt-OnTrail,
  complete_execution_attempt-OnTrail,
}

-- The calls that the callers of execution_owner_transitions.py make.
pub data Call : Type 0 where
  prepares runs : Command → Dict → Call
  completes : Command → Outcome → Dict → Call

-- What the transaction leaves: the new state, or after a raise the old one.
abbrev pub commit {ℓ} : {S : Type ℓ} → Result S → S → S
commit (ok s') s = s'
commit (err e) s = s

Ensures-commit {ℓ κ} :
    {S : Type ℓ} (P : S → Type κ) (r : Result S) (s : S) → P s → Ensures P r → P (commit r s)
Ensures-commit P (ok s') s old new = new
Ensures-commit P (err e) s old new = old

module _ ⦃rt : Runtime⦄ where
  unfoldable pub call_task : Call → RunTask × Session → Result (RunTask × Session)
  call_task (prepares c summary) (task, db) = prepare_run_task c summary task db
  call_task (runs c summary) (task, db) = run_run_task c summary task db
  call_task (completes c outcome summary) (task, db) = complete_run_task c outcome summary task db

  unfoldable pub call_tasks : List Call → RunTask × Session → RunTask × Session
  unfolding call_task
  call_tasks [] w = w
  call_tasks (call ∷ calls) w = call_tasks calls (commit (call_task call w) w)

  unfoldable pub call_attempt :
      Call → ExecutionAttempt × Session → Result (ExecutionAttempt × Session)
  call_attempt (prepares c summary) (a, db) = prepare_execution_attempt c summary a db
  call_attempt (runs c summary) (a, db) = run_execution_attempt c summary a db
  call_attempt (completes c outcome summary) (a, db) =
      complete_execution_attempt c outcome summary a db

  unfoldable pub call_attempts : List Call → ExecutionAttempt × Session → ExecutionAttempt × Session
  unfolding call_attempt
  call_attempts [] w = w
  call_attempts (call ∷ calls) w = call_attempts calls (commit (call_attempt call w) w)

  call_task-OnTrail :
      (o : Origin) (call : Call) (w : RunTask × Session)
      → OnTrail o w
      → Ensures (OnTrail o) (call_task call w)
  unfolding call_task
  call_task-OnTrail o (prepares c summary) (task, db) = prepare_run_task-OnTrail o c summary task db
  call_task-OnTrail o (runs c summary) (task, db) = run_run_task-OnTrail o c summary task db
  call_task-OnTrail o (completes c outcome summary) (task, db) =
      complete_run_task-OnTrail o c outcome summary task db

  pub call_tasks-OnTrail :
      (o : Origin) (calls : List Call) (w : RunTask × Session)
      → OnTrail o w
      → OnTrail o (call_tasks calls w)
  unfolding call_tasks
  call_tasks-OnTrail o [] w on = on
  call_tasks-OnTrail o (call ∷ calls) w on =
      call_tasks-OnTrail o calls (commit (call_task call w) w)
        (Ensures-commit (OnTrail o) (call_task call w) w on (call_task-OnTrail o call w on))

  call_attempt-OnTrail :
      (o : Origin) (call : Call) (w : ExecutionAttempt × Session)
      → AttemptTrail.OnTrail o w
      → Ensures (AttemptTrail.OnTrail o) (call_attempt call w)
  unfolding call_attempt
  call_attempt-OnTrail o (prepares c summary) (a, db) =
      prepare_execution_attempt-OnTrail o c summary a db
  call_attempt-OnTrail o (runs c summary) (a, db) = run_execution_attempt-OnTrail o c summary a db
  call_attempt-OnTrail o (completes c outcome summary) (a, db) =
      complete_execution_attempt-OnTrail o c outcome summary a db

  pub call_attempts-OnTrail :
      (o : Origin) (calls : List Call) (w : ExecutionAttempt × Session)
      → AttemptTrail.OnTrail o w
      → AttemptTrail.OnTrail o (call_attempts calls w)
  unfolding call_attempts
  call_attempts-OnTrail o [] w on = on
  call_attempts-OnTrail o (call ∷ calls) w on =
      call_attempts-OnTrail o calls (commit (call_attempt call w) w) (
        Ensures-commit (AttemptTrail.OnTrail o) (call_attempt call w) w on
          (call_attempt-OnTrail o call w on))

  abbrev pub task_origin : RunTask × Session → Origin
  task_origin w = record {
    id = w.0.run_task_id;
    status = w.0.lifecycle_status;
    version = w.0.row_version;
    events = history w.0.run_task_id w.1;
    others = λ j. history j w.1;
  }

  abbrev pub attempt_origin : ExecutionAttempt × Session → Origin
  attempt_origin w = record {
    id = w.0.execution_attempt_id;
    status = w.0.lifecycle_status;
    version = w.0.row_version;
    events = history w.0.execution_attempt_id w.1;
    others = λ j. history j w.1;
  }

  -- Whatever lifecycle calls are made on a RunTask, failing ones included, the outbox holds after
  -- them the task's earlier events and, on top, one event for each edge taken: each edge is one of
  -- LC-035, starts at the status and version where the one before it ended, raises the version by
  -- one and takes the sequence after the greatest so far; the last ends at the task's own status
  -- and version. The events of every other aggregate are what they were.
  pub call_tasks-follows_lifecycle :
      (calls : List Call) (w : RunTask × Session) → OnTrail (task_origin w) (call_tasks calls w)
  call_tasks-follows_lifecycle calls w =
      call_tasks-OnTrail (task_origin w) calls w
        (record { same_id = refl; trail = start; others = λ j _. refl })

  -- Whatever lifecycle calls are made on an ExecutionAttempt, failing ones included, the outbox holds
  -- after them the attempt's earlier events and, on top, one event for each edge taken: each edge is
  -- one of LC-036, starts at the status and version where the one before it ended, raises the version
  -- by one and takes the sequence after the greatest so far; the last ends at the attempt's own status
  -- and version. The events of every other aggregate are what they were.
  pub call_attempts-follows_lifecycle :
      (calls : List Call) (w : ExecutionAttempt × Session)
      → AttemptTrail.OnTrail (attempt_origin w) (call_attempts calls w)
  call_attempts-follows_lifecycle calls w =
      call_attempts-OnTrail (attempt_origin w) calls w
        (record { same_id = refl; trail = start; others = λ j _. refl })

-- Sequences fall strictly from the newest event to the oldest, so no two are equal.
abbrev pub Descending : List OutboxEvent → Type 0
Descending [] = Unit
Descending (e ∷ es) = All (λ older. older.sequence < e.sequence) es × Descending es

below_top : (es : List OutboxEvent) (n : ℕ) → top es < n → All (λ e. e.sequence < n) es
below_top [] n h = tt
below_top (e ∷ es) n h = (omega arith, below_top es n (omega arith))

Trail-Descending :
    {type : AggregateType} {s₀ : Status} {v₀ : ℕ} {base : List OutboxEvent} {s : Status} {v : ℕ}
    {h : List OutboxEvent}
    → Descending base
    → Trail type s₀ v₀ base s v h
    → Descending h
Trail-Descending d start = d
Trail-Descending d (step {h = h} e trail legal r) =
    (below_top h e.sequence (omega (arith, r.next_sequence)), Trail-Descending d trail)

Trail-version :
    {type : AggregateType} {s₀ : Status} {v₀ : ℕ} {base : List OutboxEvent} {s : Status} {v : ℕ}
    {h : List OutboxEvent}
    → Trail type s₀ v₀ base s v h
    → v + length base ≡ v₀ + length h
Trail-version start = refl
Trail-version (step e trail legal r) = omega (arith, Trail-version trail, r.next_version)

-- From an outbox in which the task's events have distinct, rising sequences, any lifecycle calls
-- lead to one that has them too; and the version has risen by as much as events were added.
pub call_tasks-sequences :
    ⦃rt : Runtime⦄ (calls : List Call) (w : RunTask × Session)
    → Descending (history w.0.run_task_id w.1)
    → let w' = call_tasks calls w in
      Descending (history w'.0.run_task_id w'.1)
      × (w'.0.row_version + length (history w.0.run_task_id w.1)
          ≡ w.0.row_version + length (history w'.0.run_task_id w'.1))
call_tasks-sequences calls w d =
    let on = call_tasks-follows_lifecycle calls w in
    (Trail-Descending d on.trail, Trail-version on.trail)
