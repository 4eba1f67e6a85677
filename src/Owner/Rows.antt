-- ===== src/Owner/Rows.antt =====
-- The rows of the owner lifecycles (services/api/src/platform_api/models.py).
use ai_auto_test_platform.Prelude.{ℕ, String, Option, ◌≡◌, refl, List, Bool, true, false}

-- `lifecycle_status` of LC-035 and LC-036; any other text is `other`.
pub data Status : Type 0 where
  created snapshotted validating waiting_resource dispatching preparing : Status
  running canceling passed failed canceled completed : Status
  other : String → Status

abbrev pub status_text : Status → String
status_text created = "CREATED"
status_text snapshotted = "SNAPSHOTTED"
status_text validating = "VALIDATING"
status_text waiting_resource = "WAITING_RESOURCE"
status_text dispatching = "DISPATCHING"
status_text preparing = "PREPARING"
status_text running = "RUNNING"
status_text canceling = "CANCELING"
status_text passed = "PASSED"
status_text failed = "FAILED"
status_text canceled = "CANCELED"
status_text completed = "COMPLETED"
status_text (other s) = s

abbrev pub is_created : Status → Bool
is_created created = true
is_created _ = false

abbrev pub is_preparing : Status → Bool
is_preparing preparing = true
is_preparing _ = false

abbrev pub is_running : Status → Bool
is_running running = true
is_running _ = false

pub is_created-eq : (s : Status) → is_created s ≡ true → s ≡ created
is_created-eq created h = refl
is_created-eq _ h = cc

pub is_preparing-eq : (s : Status) → is_preparing s ≡ true → s ≡ preparing
is_preparing-eq preparing h = refl
is_preparing-eq _ h = cc

pub is_running-eq : (s : Status) → is_running s ≡ true → s ≡ running
is_running-eq running h = refl
is_running-eq _ h = cc

-- The `outcome` argument of the completions.
pub data Outcome : Type 0 where
  succeeded failed cancelled : Outcome
  other : String → Outcome

abbrev pub outcome_text : Outcome → String
outcome_text succeeded = "SUCCEEDED"
outcome_text failed = "FAILED"
outcome_text cancelled = "CANCELLED"
outcome_text (other s) = s

-- The columns that both owners have and that a lifecycle step reads or writes.
pub record Lifecycle : Type 0 where
  pub project_id : Option String
  pub lifecycle_status : Status
  pub row_version : ℕ
  pub updated_at : ℕ
  pub updated_by : Option String

pub record RunTask : Type 0 where
  pub run_task_id : String
  pub lifecycle : Lifecycle
  pub open lifecycle use *
  pub idempotency_key : Option String
  pub case_suite_id : Option String
  pub environment_id : String
  pub task_type : Option String
  pub task_state : String
  pub final_result : String
  pub display_name : Option String
  pub created_at : ℕ
  pub created_by : Option String

pub record ExecutionAttempt : Type 0 where
  pub execution_attempt_id : String
  pub execution_binding_snapshot_id : Option String
  pub lifecycle : Lifecycle
  pub open lifecycle use *
  pub run_task_id : Option String
  pub attempt_no : Option String
  pub case_attempt_id : Option String
  pub runner_id : String
  pub configuration_snapshot_id : Option String
  pub execution_batch_id : Option String
  pub lease_id : Option String
  pub execution_lock_id : Option String
  pub execution_status : String
  pub finalization_status : String
  pub display_name : Option String
  pub created_at : ℕ
  pub created_by : Option String

-- The `aggregate_type` texts "RUN_TASK" and "EXECUTION_ATTEMPT".
pub data AggregateType : Type 0 where
  run_task execution_attempt : AggregateType

-- A JSON object of texts, in key order of insertion.
abbrev pub Dict : Type 0
Dict = List (String × String)

pub record OwnerAudit : Type 0 where
  pub audit_id : String
  pub project_id : String
  pub aggregate_type : AggregateType
  pub aggregate_id : String
  pub operation_id : String
  pub action : String
  pub actor_user_id : String
  pub previous_status : Option Status
  pub new_status : Option Status
  pub result_code : String
  pub reason : Option String
  pub correlation_id : String
  pub occurred_at : ℕ
  pub source_context_hash : String

-- What a lifecycle edge reports; `id_field` is the key under which the owner's id stands.
pub record TransitionPayload : Type 0 where
  pub id_field : String
  pub aggregate_id : String
  pub project_id : String
  pub from_state : Option Status
  pub to_state : Status
  pub expected_version : ℕ
  pub new_version : ℕ
  pub changed_by : String
  pub change_summary : Dict

-- What an event of an execution binding reports.
pub record BindingPayload : Type 0 where
  pub execution_binding_snapshot_id : String
  pub execution_attempt_id : String
  pub status : String
  pub identity_lease_generation : ℕ
  pub runner_lease_generation : ℕ

-- What the event of a new runtime policy reports, besides the states and versions, which are always
-- None, "PUBLISHED", 0 and 1.
pub record PolicyPayload : Type 0 where
  pub runtime_policy_revision_id : String
  pub project_id : String
  pub revision_no : ℕ
  pub changed_by : String
  pub change_summary : Dict

-- The `payload` object: of a lifecycle edge, of a binding, of a runtime policy, or of another event, an object of texts
-- and nulls.
pub data Payload : Type 0 where
  edge : TransitionPayload → Payload
  bound : BindingPayload → Payload
  published : PolicyPayload → Payload
  object : List (String × Option String) → Payload

-- `payload_json`, the envelope of an event.
pub record Envelope : Type 0 where
  pub event_id : String
  pub event_type : String
  pub event_version : String
  pub occurred_at : String
  pub aggregate_id : String
  pub sequence : ℕ
  pub correlation_id : String
  pub causation_id : String
  pub project_id : String
  pub payload : Payload

pub record OutboxEvent : Type 0 where
  pub event_id : String
  pub aggregate_id : String
  pub sequence : ℕ
  pub event_type : String
  pub payload_json : Envelope
  pub occurred_at : ℕ
  pub published_at : Option ℕ
  pub attempt_count : ℕ
