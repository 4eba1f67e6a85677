-- ===== src/Owner/Completion.antt =====
-- Where `_transition` and the preparation of a RunTask lead when they are allowed.
use ai_auto_test_platform.Prelude.{
  ℕ, ◌+◌, ◌≡◌, ◌≢◌, refl, ap, sym, subst, ◌∙◌, String, Option, some, none, List, [], ◌∷◌, length,
  drop, arith, ok, Returns, Returns-bind, Returns-mono, Returns-if, leb, true, zero, suc, eq_iff,
}
use ai_auto_test_platform.Runtime.{Runtime}
use ai_auto_test_platform.Owner.Rows.{
  Status, preparing, is_preparing, run_task, RunTask, Dict, OutboxEvent, Payload, edge,
}
use ai_auto_test_platform.Owner.Session.{Session, history}
use ai_auto_test_platform.Owner.Transition.{
  Command, Stage, dict_update, required_project, transition, evidence_event,
}
use ai_auto_test_platform.Owner.Task.{
  task_edge, stage_task_state, prepare_stages, prepare_run_task, prepare_from, preparation_path,
  preparation_index,
}
use ai_auto_test_platform.Owner.Trail.{history-transition}

-- The statuses that an aggregate's events report, newest first.
abbrev pub reported_target : Payload → List Status → List Status
reported_target (edge p) rest = p.to_state ∷ rest
reported_target _ rest = rest

abbrev pub targets : List OutboxEvent → List Status
targets [] = []
targets (e ∷ es) = reported_target e.payload_json.payload (targets es)

abbrev pub task_targets : RunTask × Session → List Status
task_targets w = targets (history w.0.run_task_id w.1)

-- The task belongs to a project, as `_required_project` demands.
pub record HasProject (task : RunTask) : Type 0 where
  pub project : String
  pub stored : task.project_id ≡ some project
  pub nonempty : project ≢ ""

required_project-ok :
    (p : String) (o : Option String) (label : String)
    → o ≡ some p
    → p ≢ ""
    → required_project o label ≡ ok p
unfolding required_project
required_project-ok p o label e h = ground (arith, eq_iff p "")

-- `w` is `task` and `db` after one more edge, to `s`, and nothing else of the task has changed but
-- its status, version and the update columns.
pub record OneEdge (s : Status) (task : RunTask) (db : Session) (w : RunTask × Session)
    : Type 0 where
  pub status : w.0.lifecycle_status ≡ s
  pub version : w.0.row_version ≡ task.row_version + 1
  pub project_id : w.0.project_id ≡ task.project_id
  pub state : w.0.task_state ≡ task.task_state
  pub result : w.0.final_result ≡ task.final_result
  pub reports : task_targets w ≡ s ∷ task_targets (task, db)

module _ ⦃rt : Runtime⦄ (c : Command) where
  pub task_edge-OneEdge :
      (st : Stage) (summary : Dict) (task : RunTask) (db : Session)
      → HasProject task
      → Returns (OneEdge st.target task db) (task_edge c st summary task db)
  unfolding task_edge transition evidence_event
  task_edge-OneEdge st summary task db h =
      rw (required_project-ok h.project task.project_id "RunTask" h.stored h.nonempty, Returns)
        (record {
          status = refl;
          version = refl;
          project_id = refl;
          state = refl;
          result = refl;
          reports = ap targets (
              history-transition c run_task task.run_task_id h.project st summary task.lifecycle
                db);
        })

  pub moved :
      {s : Status} {task : RunTask} {db : Session} {w : RunTask × Session}
      → HasProject task
      → OneEdge s task db w
      → HasProject w.0
  moved h one = record {
    project = h.project;
    stored = one.project_id ∙ h.stored;
    nonempty = h.nonempty;
  }

-- The targets of a list of stages on top of `older`, and the status at which it ends.
abbrev pub onto : List Stage → List Status → List Status
onto [] older = older
onto (st ∷ rest) older = onto rest (st.target ∷ older)

abbrev pub last_target : Status → List Stage → Status
last_target s [] = s
last_target s (st ∷ rest) = last_target st.target rest

pub record Passed (stages : List Stage) (task : RunTask) (db : Session) (w : RunTask × Session)
    : Type 0 where
  pub status : w.0.lifecycle_status ≡ last_target task.lifecycle_status stages
  pub version : w.0.row_version ≡ task.row_version + length stages
  pub reports : task_targets w ≡ onto stages (task_targets (task, db))
  pub project_id : w.0.project_id ≡ task.project_id

module _ ⦃rt : Runtime⦄ (c : Command) (summary : Dict) where
  prepare_stages-Passed :
      (stages : List Stage) (task : RunTask) (db : Session)
      → HasProject task
      → Returns (Passed stages task db) (prepare_stages c summary stages task db)
  unfolding prepare_stages
  prepare_stages-Passed [] task db h = record {
    status = refl;
    version = omega arith;
    reports = refl;
    project_id = refl;
  }
  prepare_stages-Passed (st ∷ rest) task db h =
      let task' : RunTask = record task {
        task_state = stage_task_state st.target task.task_state;
      } in
      let h' : HasProject task' = record {
        project = h.project;
        stored = h.stored;
        nonempty = h.nonempty;
      } in
      let summary' : Dict = dict_update (("task_state", task'.task_state) ∷ []) summary in
      Returns-bind (OneEdge st.target task' db) _ (task_edge c st summary' task' db) _
        (task_edge-OneEdge c st summary' task' db h')
        λ w one.
          Returns-mono (Passed rest w.0 w.1) _ (prepare_stages c summary rest w.0 w.1)
            (prepare_stages-Passed rest w.0 w.1 (moved c h' one))
            λ v passed. record {
              status = passed.status ∙ ap (λ s. last_target s rest) one.status;
              version = omega (arith, passed.version, one.version);
              reports = passed.reports ∙ ap (onto rest) one.reports;
              project_id = passed.project_id ∙ one.project_id;
            }

  unchanged : (task : RunTask) (db : Session) → Passed [] task db (task, db)
  unchanged task db = record {
    status = refl;
    version = omega arith;
    reports = refl;
    project_id = refl;
  }

  past_the_path : (i : ℕ) → leb 5 i ≡ true → drop i preparation_path ≡ []
  past_the_path (suc (suc (suc (suc (suc zero))))) h = refl
  past_the_path (suc (suc (suc (suc (suc (suc n)))))) h = refl
  past_the_path _ h = cc

  prepare_from-Passed :
      (i : ℕ) (task : RunTask) (db : Session)
      → HasProject task
      → Returns (Passed (drop i preparation_path) task db) (prepare_from (some i) c summary task db)
  unfolding prepare_from
  prepare_from-Passed i task db h =
      Returns-if _ (leb (length preparation_path) i) _ _
        (λ e.
          subst (λ r. Passed r task db (task, db)) (sym (past_the_path i e)) (unchanged task db))
        λ _. prepare_stages-Passed (drop i preparation_path) task db h

  preparing_index :
      (s : Status) (i : ℕ)
      → is_preparing s ≡ true
      → preparation_index s ≡ some i
      → [] ≡ drop i preparation_path
  preparing_index preparing i h e =
      ap (λ o. elim o [ none ↦ [] | some j ↦ drop j preparation_path ]) e
  preparing_index _ i h e = cc

  -- A task of a project, found at place `i` of the preparation order, comes to PREPARING through the
  -- stages that are left, each reported by one event in their order and each raising the version.
  pub prepare_run_task-Passed :
      (i : ℕ) (task : RunTask) (db : Session)
      → preparation_index task.lifecycle_status ≡ some i
      → HasProject task
      → Returns (Passed (drop i preparation_path) task db) (prepare_run_task c summary task db)
  unfolding prepare_run_task
  prepare_run_task-Passed i task db e h =
      Returns-if _ (is_preparing task.lifecycle_status) _ _
        (λ p.
          subst (λ r. Passed r task db (task, db)) (preparing_index task.lifecycle_status i p e)
            (unchanged task db))
        λ _.
          subst
            (λ start.
              Returns (Passed (drop i preparation_path) task db)
                (prepare_from start c summary task db))
            (sym e) (prepare_from-Passed i task db h)
