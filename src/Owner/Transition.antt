-- ===== src/Owner/Transition.antt =====
-- `_transition` and `append_transition_evidence` of execution_owner_transitions.py: one lifecycle
-- edge, with its audit row and its outbox event.
use ai_auto_test_platform.Prelude.{
  ℕ, ◌+◌, String, Option, none, some, [], ◌∷◌, str_eq, if◌then◌else◌, Result, ok, err,
  runtime_error, concat,
}
use ai_auto_test_platform.Runtime.{Runtime}
use ai_auto_test_platform.Owner.Rows.{
  Status, AggregateType, run_task, execution_attempt, Lifecycle, Dict, OwnerAudit, OutboxEvent,
  edge,
}
use ai_auto_test_platform.Owner.Session.{
  Session, add_audit, add_event, flush, new_ulid, max_sequence,
}

-- audit.py `AuditContext`, the fields that the lifecycle code reads.
pub record AuditContext : Type 0 where
  pub correlation_id : String
  pub source_context : String

-- The keyword arguments that every lifecycle function passes on.
pub record Command : Type 0 where
  pub actor_user_id : String
  pub operation_id : String
  pub context : AuditContext
  pub now : ℕ

-- `target_status`, `event_type` and `action` of one edge.
pub record Stage : Type 0 where
  pub target : Status
  pub event_type : String
  pub action : String

-- `summary[key] = value`: an existing key keeps its place.
pub dict_set : String → String → Dict → Dict
dict_set key value [] = (key, value) ∷ []
dict_set key value ((k, v) ∷ rest) =
    if str_eq k key then (k, value) ∷ rest else (k, v) ∷ dict_set key value rest

-- `{**base, **extra}`
unfoldable pub dict_update : Dict → Dict → Dict
unfolding dict_set
dict_update base [] = base
dict_update base ((k, v) ∷ extra) = dict_update (dict_set k v base) extra

id_field_of : AggregateType → String
id_field_of run_task = "run_task_id"
id_field_of execution_attempt = "execution_attempt_id"

-- `_required_project`: None and the empty text are both refused.
unfoldable pub required_project : Option String → String → Result String
required_project none label = err (runtime_error (concat label " has no Project identity."))
required_project (some p) label =
    if str_eq p "" then err (runtime_error (concat label " has no Project identity.")) else ok p

module _ ⦃rt : Runtime⦄ where
  evidence_audit :
      Command → AggregateType → String → String → Stage → Option Status → String → OwnerAudit
  evidence_audit c type id project stage previous audit_id = record {
    audit_id = audit_id;
    project_id = project;
    aggregate_type = type;
    aggregate_id = id;
    operation_id = c.operation_id;
    action = stage.action;
    actor_user_id = c.actor_user_id;
    previous_status = previous;
    new_status = some stage.target;
    result_code = "SUCCESS";
    reason = none;
    correlation_id = c.context.correlation_id;
    occurred_at = c.now;
    source_context_hash = rt.sha256 c.context.source_context;
  }

  unfoldable pub evidence_event :
      Command
      → AggregateType
      → String
      → String
      → Stage
      → Option Status
      → ℕ
      → ℕ
      → Dict
      → String
      → ℕ
      → OutboxEvent
  unfolding id_field_of
  evidence_event c type id project stage previous expected new summary event_id sequence = record {
    event_id = event_id;
    aggregate_id = id;
    sequence = sequence;
    event_type = stage.event_type;
    payload_json = record {
      event_id = event_id;
      event_type = stage.event_type;
      event_version = "1.0.0";
      occurred_at = rt.isoformat c.now;
      aggregate_id = id;
      sequence = sequence;
      correlation_id = c.context.correlation_id;
      causation_id = c.context.correlation_id;
      project_id = project;
      payload = edge (record {
        id_field = id_field_of type;
        aggregate_id = id;
        project_id = project;
        from_state = previous;
        to_state = stage.target;
        expected_version = expected;
        new_version = new;
        changed_by = c.actor_user_id;
        change_summary = summary;
      });
    };
    occurred_at = c.now;
    published_at = none;
    attempt_count = 0;
  }

  unfoldable pub append_transition_evidence :
      Command
      → AggregateType
      → String
      → String
      → Stage
      → Option Status
      → ℕ
      → ℕ
      → Dict
      → Session
      → Session
  unfolding evidence_audit evidence_event flush
  append_transition_evidence c type id project stage previous expected new summary db =
      let (audit_id, db₁) = new_ulid db in
      let db₂ = flush (add_audit (evidence_audit c type id project stage previous audit_id) db₁) in
      let sequence = max_sequence id db₂.outbox + 1 in
      let (event_id, db₃) = new_ulid db₂ in
      add_event
        (evidence_event c type id project stage previous expected new summary event_id sequence) db₃

  -- The row after the edge, and the session with the edge's evidence.
  unfoldable pub transition :
      Command
      → AggregateType
      → String
      → String
      → Stage
      → Dict
      → Lifecycle
      → Session
      → Lifecycle × Session
  unfolding append_transition_evidence
  transition c type id project stage summary row db =
      let after : Lifecycle = record row {
        lifecycle_status = stage.target;
        row_version = row.row_version + 1;
        updated_at = c.now;
        updated_by = some c.actor_user_id;
      } in
      (
        after,
        append_transition_evidence c type id project stage (some row.lifecycle_status)
            row.row_version after.row_version summary db,
      )
