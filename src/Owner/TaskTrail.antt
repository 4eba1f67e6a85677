-- ===== src/Owner/TaskTrail.antt =====
-- The RunTask operations of execution_owner_transitions.py and the edges of LC-035.
use ai_auto_test_platform.Prelude.{
  ℕ, ◌≡◌, ◌≢◌, ◌∙◌, sym, refl, subst, String, Option, none, some, List, [], ◌∷◌, drop, Ensures,
  Ensures-bind, Ensures-bind_eq, Ensures-if, Ensures-mono, leb, length,
}
use ai_auto_test_platform.Runtime.{Runtime}
use ai_auto_test_platform.Owner.Rows.{
  Status, created, snapshotted, validating, waiting_resource, dispatching, running, canceling,
  completed, is_preparing, is_preparing-eq, is_running, is_running-eq, Outcome, run_task, RunTask,
  Dict, OutboxEvent,
}
use ai_auto_test_platform.Owner.Session.{Session, history}
use ai_auto_test_platform.Owner.Transition.{
  Command, Stage, dict_update, required_project, transition,
}
use ai_auto_test_platform.Owner.Task.{
  task_edge, prepare_stages, prepare_run_task, run_run_task, complete_run_task, preparation_path,
  preparation_index, prepare_from, run_running, cancel_edge, completed_edge, complete_running,
  stage_task_state,
}
use ai_auto_test_platform.Owner.Trail.{
  Edge, snapshot, validate, wait, dispatch, prepare, run, cancel, complete_canceling, complete,
  Trail, transition-Trail, history-transition_ne,
}

-- A list of stages that follows the diagram from `s`.
abbrev Linked : Status → List Stage → Type 0
Linked s [] = Unit
Linked s (st ∷ rest) = Edge run_task s st.target × Linked st.target rest

-- Where a trail begins: the owner's id, its status and version, its events so far, and those of
-- every other aggregate.
pub record Origin : Type 0 where
  pub id : String
  pub status : Status
  pub version : ℕ
  pub events : List OutboxEvent
  pub others : String → List OutboxEvent

-- The task is the origin's, and its row and its events stand at the end of a trail from there.
pub record OnTrail (o : Origin) (w : RunTask × Session) : Type 0 where
  pub same_id : w.0.run_task_id ≡ o.id
  pub trail :
      Trail run_task o.status o.version o.events w.0.lifecycle_status w.0.row_version
        (history w.0.run_task_id w.1)
  pub others : (j : String) → o.id ≢ j → history j w.1 ≡ o.others j

abbrev After : Origin → Status → RunTask × Session → Type 0
After o s w = OnTrail o w × (w.0.lifecycle_status ≡ s)

abbrev LinkedFrom : Status → Option ℕ → Type 0
LinkedFrom s none = Unit
LinkedFrom s (some i) = Linked s (drop i preparation_path)

preparation-LinkedFrom : (s : Status) → LinkedFrom s (preparation_index s)
preparation-LinkedFrom created = (snapshot, (validate, (wait, (dispatch, (prepare, tt)))))
preparation-LinkedFrom snapshotted = (validate, (wait, (dispatch, (prepare, tt))))
preparation-LinkedFrom validating = (wait, (dispatch, (prepare, tt)))
preparation-LinkedFrom waiting_resource = (dispatch, (prepare, tt))
preparation-LinkedFrom dispatching = (prepare, tt)
preparation-LinkedFrom _ = tt

module _ ⦃rt : Runtime⦄ (o : Origin) (c : Command) where
  task_edge-OnTrail :
      (st : Stage) (summary : Dict) (task : RunTask) (db : Session)
      → Edge run_task task.lifecycle_status st.target
      → OnTrail o (task, db)
      → Ensures (After o st.target) (task_edge c st summary task db)
  unfolding task_edge transition
  task_edge-OnTrail st summary task db legal on =
      Ensures-bind_eq _ (required_project task.project_id "RunTask") _ λ project _. (
        record {
          same_id = on.same_id;
          trail =
              transition-Trail c run_task task.run_task_id project st summary task.lifecycle db
                legal on.trail;
          others = λ j ne.
              history-transition_ne c run_task task.run_task_id project st summary task.lifecycle db
                j (λ e. ne (sym on.same_id ∙ e))
              ∙ on.others j ne;
        },
        refl,
      )

  prepare_stages-OnTrail :
      (summary : Dict) (stages : List Stage) (task : RunTask) (db : Session)
      → Linked task.lifecycle_status stages
      → OnTrail o (task, db)
      → Ensures (OnTrail o) (prepare_stages c summary stages task db)
  unfolding prepare_stages
  prepare_stages-OnTrail summary [] task db linked on = on
  prepare_stages-OnTrail summary (st ∷ rest) task db linked on =
      let task' : RunTask = record task {
        task_state = stage_task_state st.target task.task_state;
      } in
      let summary' : Dict = dict_update (("task_state", task'.task_state) ∷ []) summary in
      Ensures-bind (After o st.target) _ (task_edge c st summary' task' db) _
        (task_edge-OnTrail st summary' task' db linked.0
          (record { same_id = on.same_id; trail = on.trail; others = on.others }))
        λ w on'.
          prepare_stages-OnTrail summary rest w.0 w.1
            (subst (λ s. Linked s rest) (sym on'.1) linked.1) on'.0

  prepare_from-OnTrail :
      (start : Option ℕ) (summary : Dict) (task : RunTask) (db : Session)
      → LinkedFrom task.lifecycle_status start
      → OnTrail o (task, db)
      → Ensures (OnTrail o) (prepare_from start c summary task db)
  unfolding prepare_from
  prepare_from-OnTrail none summary task db linked on = tt
  prepare_from-OnTrail (some i) summary task db linked on =
      Ensures-if _ (leb (length preparation_path) i) _ _ (λ _. on)
        λ _. prepare_stages-OnTrail summary (drop i preparation_path) task db linked on

  pub prepare_run_task-OnTrail :
      (summary : Dict) (task : RunTask) (db : Session)
      → OnTrail o (task, db)
      → Ensures (OnTrail o) (prepare_run_task c summary task db)
  unfolding prepare_run_task
  prepare_run_task-OnTrail summary task db on =
      Ensures-if _ (is_preparing task.lifecycle_status) _ _ (λ _. on)
        λ _.
          prepare_from-OnTrail (preparation_index task.lifecycle_status) summary task db
            (preparation-LinkedFrom task.lifecycle_status) on

  pub run_run_task-OnTrail :
      (summary : Dict) (task : RunTask) (db : Session)
      → OnTrail o (task, db)
      → Ensures (OnTrail o) (run_run_task c summary task db)
  unfolding run_run_task run_running
  run_run_task-OnTrail summary task db on =
      Ensures-if _ (is_preparing task.lifecycle_status) _ _
        (λ e.
          Ensures-mono (After o running) _ (task_edge c _ _ _ db)
            (task_edge-OnTrail _ _
              (record task { task_state = "RUNNING"; final_result = "UNKNOWN" }) db
              (rw (is_preparing-eq task.lifecycle_status e) run)
              (record { same_id = on.same_id; trail = on.trail; others = on.others }))
            λ w after. after.0)
        λ _. tt

  completed_edge-OnTrail :
      (summary : Dict) (task : RunTask) (db : Session)
      → Edge run_task task.lifecycle_status completed
      → OnTrail o (task, db)
      → Ensures (OnTrail o) (completed_edge c summary task db)
  unfolding completed_edge
  completed_edge-OnTrail summary task db legal on =
      Ensures-mono (After o completed) _ (task_edge c _ _ task db)
        (task_edge-OnTrail _ _ task db legal on) λ w after. after.0

  complete_running-OnTrail :
      (outcome : Outcome) (summary : Dict) (task : RunTask) (db : Session)
      → task.lifecycle_status ≡ running
      → OnTrail o (task, db)
      → Ensures (OnTrail o) (complete_running c outcome summary task db)
  unfolding complete_running cancel_edge
  complete_running-OnTrail Outcome.cancelled summary task db e on =
      Ensures-bind (After o canceling) _ (task_edge c _ _ task db) _
        (task_edge-OnTrail _ _ task db (rw e cancel) on)
        λ w after.
          completed_edge-OnTrail summary
            (record (w.0) { task_state = "CANCELED"; final_result = "CANCELED" }) w.1
            (rw (after.1) complete_canceling)
            (record { same_id = after.0.same_id; trail = after.0.trail; others = after.0.others })
  complete_running-OnTrail Outcome.succeeded summary task db e on =
      completed_edge-OnTrail summary _ db (rw e complete)
        (record { same_id = on.same_id; trail = on.trail; others = on.others })
  complete_running-OnTrail _ summary task db e on =
      completed_edge-OnTrail summary _ db (rw e complete)
        (record { same_id = on.same_id; trail = on.trail; others = on.others })

  pub complete_run_task-OnTrail :
      (outcome : Outcome) (summary : Dict) (task : RunTask) (db : Session)
      → OnTrail o (task, db)
      → Ensures (OnTrail o) (complete_run_task c outcome summary task db)
  unfolding complete_run_task
  complete_run_task-OnTrail outcome summary task db on =
      Ensures-if _ (is_running task.lifecycle_status) _ _
        (λ e.
          complete_running-OnTrail outcome summary task db (is_running-eq task.lifecycle_status e)
            on)
        λ _. tt
