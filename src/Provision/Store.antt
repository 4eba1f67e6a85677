-- ===== src/Provision/Store.antt =====
-- The tables of the owner service, its errors, and what it takes from libraries and other services.
use ai_auto_test_platform.Prelude.{
  ℕ, String, Option, none, some, List, [], ◌∷◌, Bool, Error, Result, ok, err, ◌>>=◌, platform_error,
  str_eq, concat,
}
use ai_auto_test_platform.KeyRing.{KeyRing}
use ai_auto_test_platform.Runtime.{Runtime}
use ai_auto_test_platform.Idempotency.{IdempotencyRecord, Table, Claimed, set_row, complete}
use ai_auto_test_platform.Idempotency.Commands.{claim_command}
use ai_auto_test_platform.Owner.Rows.{
  RunTask, ExecutionAttempt, Dict, Status, AggregateType, OutboxEvent, object,
}
use ai_auto_test_platform.Owner.Session.{Session, new_ulid, add_audit, add_event}
use ai_auto_test_platform.Owner.Transition.{AuditContext}
use ai_auto_test_platform.Runners.Rows.{Runner, Project, Lease}
use ai_auto_test_platform.Runners.Slots.{first}
use ai_auto_test_platform.Runners.Slots.Discovery.{Authentication}
use ai_auto_test_platform.Binding.Facts.{Environment}
use ai_auto_test_platform.Provision.Requests.{CreateTask, UpdateTask, CreateAttempt, UpdateAttempt}

-- The columns of a row that an owner refers to.
pub record Reference : Type 0 where
  pub id : String
  pub project_id : Option String
  pub run_task_id : Option String

-- Newest rows first; `referenced` has the rows of a table by the table's name.
pub record Store : Type 0 where
  pub tasks : List RunTask
  pub attempts : List ExecutionAttempt
  pub projects : List Project
  pub environments : List Environment
  pub runners : List Runner
  pub leases : List Lease
  pub referenced : String → List Reference
  pub records : Table Dict
  pub session : Session

-- UTF-8, `hexdigest`, `str` of a number, and the JSON texts of request bodies as bytes.
pub record Texts : Type 0 where
  pub utf8 : String → List ℕ
  pub hexdigest : String → String
  pub str : ℕ → String
  pub create_task_json : CreateTask → List ℕ
  -- `id + "\n" + body.model_dump_json()`
  pub update_task_json : String → UpdateTask → List ℕ
  pub create_attempt_json : CreateAttempt → List ℕ
  pub update_attempt_json : String → UpdateAttempt → List ℕ

-- `__init__`: the services, with the key ring, the HMAC and the times of the two digests of a claim.
pub record Service : Type 1 where
  pub authentication : Authentication
  pub mac : List ℕ → String → List ℕ → String
  pub ring : KeyRing
  pub digests_at : ℕ
  pub printed_at : ℕ

-- The arguments of a request beside its body, and `utc_now` at the claim, in the command and at the
-- completion of the record.
pub record Call : Type 0 where
  pub token : String
  pub key : String
  pub context : AuditContext
  pub claimed_at : ℕ
  pub now : ℕ
  pub completed_at : ℕ

abbrev pub invalid_creation : String → Error
invalid_creation detail = platform_error 400 "EXECUTION_OWNER_REQUEST_INVALID" detail

abbrev pub not_found : String → Error
not_found detail = platform_error 404 "EXECUTION_OWNER_NOT_FOUND" detail

abbrev pub state_conflict : String → Error
state_conflict detail = platform_error 409 "EXECUTION_OWNER_STATE_CONFLICT" detail

abbrev pub version_conflict : String → Error
version_conflict label =
    platform_error 409 "EXECUTION_OWNER_CONCURRENCY_CONFLICT"
      (concat label " changed after it was loaded.")

abbrev pub found {ℓ} : {A : Type ℓ} → Error → Option A → Result A
found e none = err e
found e (some a) = ok a

abbrev pub is_task : String → RunTask → Bool
is_task id t = str_eq t.run_task_id id

abbrev pub is_attempt : String → ExecutionAttempt → Bool
is_attempt id a = str_eq a.execution_attempt_id id

-- `_run_task` and `_attempt`
unfoldable pub task_of : String → Store → Result RunTask
task_of id db = found (not_found "RunTask does not exist.") (first (is_task id) db.tasks)

unfoldable pub attempt_of : String → Store → Result ExecutionAttempt
attempt_of id db =
    found (not_found "ExecutionAttempt does not exist.") (first (is_attempt id) db.attempts)

-- The record of a command is completed under its key.
abbrev pub complete_record : Call → ℕ → Dict → IdempotencyRecord Dict → Table Dict → Table Dict
complete_record call status json r table =
    set_row r.idempotency_key (complete r status (some json) call.completed_at) table

-- The arguments of `_audit` that differ from command to command.
pub record Evidence : Type 0 where
  pub project_id : String
  pub aggregate_type : AggregateType
  pub aggregate_id : String
  pub operation : String
  pub action : String
  pub actor_id : String
  pub previous : Option Status
  pub new : Option Status
  pub reason : Option String

module _ ⦃rt : Runtime⦄ where
  -- `_audit`
  unfoldable pub audit : Call → Evidence → Session → Session
  audit call e db =
      let (id, db') = new_ulid db in
      add_audit
        (record {
          audit_id = id;
          project_id = e.project_id;
          aggregate_type = e.aggregate_type;
          aggregate_id = e.aggregate_id;
          operation_id = e.operation;
          action = e.action;
          actor_user_id = e.actor_id;
          previous_status = e.previous;
          new_status = e.new;
          result_code = "SUCCESS";
          reason = e.reason;
          correlation_id = call.context.correlation_id;
          occurred_at = call.now;
          source_context_hash = rt.sha256 call.context.source_context;
        })
        db'

  -- The row that `_event` adds, always of sequence 1.
  unfoldable pub event_row :
      Call → String → String → String → List (String × Option String) → String → OutboxEvent
  event_row call aggregate_id project_id event_type payload id = record {
    event_id = id;
    aggregate_id = aggregate_id;
    sequence = 1;
    event_type = event_type;
    payload_json = record {
      event_id = id;
      event_type = event_type;
      event_version = "1.0.0";
      occurred_at = rt.isoformat call.now;
      aggregate_id = aggregate_id;
      sequence = 1;
      correlation_id = call.context.correlation_id;
      causation_id = call.key;
      project_id = project_id;
      payload = object payload;
    };
    occurred_at = call.now;
    published_at = none;
    attempt_count = 0;
  }

  -- `_event`
  unfoldable pub event :
      Call → String → String → String → List (String × Option String) → Session → Session
  event call aggregate_id project_id event_type payload db =
      let (id, db') = new_ulid db in
      add_event (event_row call aggregate_id project_id event_type payload id) db'

module _ (service : Service) where
  open service use {authentication, mac, ring, digests_at, printed_at}

  -- `_authenticate`
  unfoldable pub authenticated : Call → String → String → String → Result authentication.Actor
  authenticated call operation project_id permission =
      authentication.authenticate call.token operation >>= λ actor.
      authentication.require_permissions actor operation (permission ∷ []) project_id >>= λ _.
      ok actor

  -- `self._idempotency.claim`
  abbrev pub claimed :
      ⦃tx : Texts⦄ → Call → authentication.Actor → String → List ℕ → Store → Result (Claimed Dict)
  claimed ⦃tx⦄ call actor operation payload db =
      claim_command tx.utf8 mac ring digests_at printed_at (authentication.user_id actor) operation
        call.key payload none call.claimed_at db.records
