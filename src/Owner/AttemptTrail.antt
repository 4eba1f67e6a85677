-- ===== src/Owner/AttemptTrail.antt =====
-- The ExecutionAttempt operations of execution_owner_transitions.py and the edges of LC-036.
use ai_auto_test_platform.Prelude.{
  ◌≡◌, ◌≢◌, ◌∙◌, sym, refl, String, Option, none, some, Ensures, Ensures-bind, Ensures-bind_eq,
  Ensures-if, Ensures-mono,
}
use ai_auto_test_platform.Runtime.{Runtime}
use ai_auto_test_platform.Owner.Rows.{
  Status, running, completed, is_created, is_created-eq, is_preparing, is_preparing-eq, is_running,
  is_running-eq, Outcome, outcome_text, execution_attempt, ExecutionAttempt, Dict,
}
use ai_auto_test_platform.Owner.Session.{Session, history}
use ai_auto_test_platform.Owner.Transition.{Command, Stage, required_project, transition}
use ai_auto_test_platform.Owner.Attempt.{
  attempt_edge, prepare_created, prepare_execution_attempt, run_prepared, run_execution_attempt,
  terminal_stage, complete_through, complete_result, complete_execution_attempt,
}
use ai_auto_test_platform.Owner.Trail.{
  Edge, prepare_attempt, run_attempt, pass_attempt, fail_attempt, cancel_attempt, complete_passed,
  complete_failed, complete_canceled, Trail, transition-Trail, history-transition_ne,
}
use ai_auto_test_platform.Owner.TaskTrail.{Origin}

-- The attempt is the origin's, and its row and its events stand at the end of a trail from there.
pub record OnTrail (o : Origin) (w : ExecutionAttempt × Session) : Type 0 where
  pub same_id : w.0.execution_attempt_id ≡ o.id
  pub trail :
      Trail execution_attempt o.status o.version o.events w.0.lifecycle_status w.0.row_version
        (history w.0.execution_attempt_id w.1)
  pub others : (j : String) → o.id ≢ j → history j w.1 ≡ o.others j

abbrev After : Origin → Status → ExecutionAttempt × Session → Type 0
After o s w = OnTrail o w × (w.0.lifecycle_status ≡ s)

-- A result stage stands between RUNNING and COMPLETED.
abbrev IsResult : Option Stage → Type 0
IsResult none = Unit
IsResult (some st) =
    Edge execution_attempt running st.target × Edge execution_attempt st.target completed

terminal_stage-IsResult : (outcome : Outcome) → IsResult (terminal_stage outcome)
terminal_stage-IsResult Outcome.succeeded = (pass_attempt, complete_passed)
terminal_stage-IsResult Outcome.failed = (fail_attempt, complete_failed)
terminal_stage-IsResult Outcome.cancelled = (cancel_attempt, complete_canceled)
terminal_stage-IsResult (Outcome.other _) = tt

module _ ⦃rt : Runtime⦄ (o : Origin) (c : Command) where
  attempt_edge-OnTrail :
      (st : Stage) (summary : Dict) (attempt : ExecutionAttempt) (db : Session)
      → Edge execution_attempt attempt.lifecycle_status st.target
      → OnTrail o (attempt, db)
      → Ensures (After o st.target) (attempt_edge c st summary attempt db)
  unfolding attempt_edge transition
  attempt_edge-OnTrail st summary attempt db legal on =
      Ensures-bind_eq _ (required_project attempt.project_id "ExecutionAttempt") _ λ project _. (
        record {
          same_id = on.same_id;
          trail =
              transition-Trail c execution_attempt attempt.execution_attempt_id project st summary
                attempt.lifecycle db legal on.trail;
          others = λ j ne.
              history-transition_ne c execution_attempt attempt.execution_attempt_id project st
                summary attempt.lifecycle db j (λ e. ne (sym on.same_id ∙ e))
              ∙ on.others j ne;
        },
        refl,
      )

  last_edge-OnTrail :
      (st : Stage) (summary : Dict) (attempt : ExecutionAttempt) (db : Session)
      → Edge execution_attempt attempt.lifecycle_status st.target
      → OnTrail o (attempt, db)
      → Ensures (OnTrail o) (attempt_edge c st summary attempt db)
  last_edge-OnTrail st summary attempt db legal on =
      Ensures-mono (After o st.target) _ (attempt_edge c st summary attempt db)
        (attempt_edge-OnTrail st summary attempt db legal on) λ w after. after.0

  pub prepare_execution_attempt-OnTrail :
      (summary : Dict) (attempt : ExecutionAttempt) (db : Session)
      → OnTrail o (attempt, db)
      → Ensures (OnTrail o) (prepare_execution_attempt c summary attempt db)
  unfolding prepare_execution_attempt prepare_created
  prepare_execution_attempt-OnTrail summary attempt db on =
      Ensures-if _ (is_preparing attempt.lifecycle_status) _ _ (λ _. on)
        λ _.
          Ensures-if _ (is_created attempt.lifecycle_status) _ _
            (λ e.
              last_edge-OnTrail _ _ attempt db
                (rw (is_created-eq attempt.lifecycle_status e) prepare_attempt) on)
            λ _. tt

  pub run_execution_attempt-OnTrail :
      (summary : Dict) (attempt : ExecutionAttempt) (db : Session)
      → OnTrail o (attempt, db)
      → Ensures (OnTrail o) (run_execution_attempt c summary attempt db)
  unfolding run_execution_attempt run_prepared
  run_execution_attempt-OnTrail summary attempt db on =
      Ensures-if _ (is_preparing attempt.lifecycle_status) _ _
        (λ e.
          last_edge-OnTrail _ _ (record attempt { execution_status = "RUNNING" }) db
            (rw (is_preparing-eq attempt.lifecycle_status e) run_attempt)
            (record { same_id = on.same_id; trail = on.trail; others = on.others }))
        λ _. tt

  complete_through-OnTrail :
      (outcome : Outcome) (st : Stage) (summary : Dict) (attempt : ExecutionAttempt) (db : Session)
      → Edge execution_attempt attempt.lifecycle_status st.target
      → Edge execution_attempt st.target completed
      → OnTrail o (attempt, db)
      → Ensures (OnTrail o) (complete_through c outcome st summary attempt db)
  unfolding complete_through
  complete_through-OnTrail outcome st summary attempt db first last on =
      Ensures-bind (After o st.target) _
        (attempt_edge c st _ (record attempt { execution_status = outcome_text outcome }) db) _
        (attempt_edge-OnTrail st _ (record attempt { execution_status = outcome_text outcome }) db
          first (record { same_id = on.same_id; trail = on.trail; others = on.others }))
        λ w after.
          last_edge-OnTrail _ _ (record (w.0) { finalization_status = "COMPLETED" }) w.1
            (rw after.1 last)
            (record { same_id = after.0.same_id; trail = after.0.trail; others = after.0.others })

  result-OnTrail :
      (result : Option Stage) (outcome : Outcome) (summary : Dict) (attempt : ExecutionAttempt)
      (db : Session)
      → IsResult result
      → attempt.lifecycle_status ≡ running
      → OnTrail o (attempt, db)
      → Ensures (OnTrail o) (complete_result result c outcome summary attempt db)
  unfolding complete_result
  result-OnTrail none outcome summary attempt db h e on = tt
  result-OnTrail (some st) outcome summary attempt db h e on =
      complete_through-OnTrail outcome st summary attempt db (rw e h.0) h.1 on

  pub complete_execution_attempt-OnTrail :
      (outcome : Outcome) (summary : Dict) (attempt : ExecutionAttempt) (db : Session)
      → OnTrail o (attempt, db)
      → Ensures (OnTrail o) (complete_execution_attempt c outcome summary attempt db)
  unfolding complete_execution_attempt
  complete_execution_attempt-OnTrail outcome summary attempt db on =
      Ensures-if _ (is_running attempt.lifecycle_status) _ _
        (λ e.
          result-OnTrail (terminal_stage outcome) outcome summary attempt db
            (terminal_stage-IsResult outcome) (is_running-eq attempt.lifecycle_status e) on)
        λ _. tt
