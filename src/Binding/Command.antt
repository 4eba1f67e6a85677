-- ===== src/Binding/Command.antt =====
-- A binding command as one transaction: `command`, with `_audit` and `_event`.
use ai_auto_test_platform.Prelude.{
  ℕ, ◌+◌, String, Option, none, some, List, [], ◌∷◌, str_eq, if◌then◌else◌, Result, ok, ◌>>=◌, ◌>>◌,
}
use ai_auto_test_platform.Runtime.{Runtime}
use ai_auto_test_platform.Idempotency.{IdempotencyRecord, Table, Claimed, set_row, complete}
use ai_auto_test_platform.Idempotency.Commands.{claim_command}
use ai_auto_test_platform.Owner.Rows.{ExecutionAttempt, Dict, OutboxEvent, bound}
use ai_auto_test_platform.Owner.Session.{new_ulid, add_event, max_sequence, flush}
use ai_auto_test_platform.Runners.Rows.{Lease}
use ai_auto_test_platform.Runners.Slots.{first, update_first}
use ai_auto_test_platform.Binding.Rows.{Binding, CommandRequest}
use ai_auto_test_platform.Binding.Store.{
  Store, Encoding, Service, Call, state_conflict, found, server_now, is_lease, is_binding,
  locked_lease, binding_of,
}
use ai_auto_test_platform.Binding.Guards.{assert_owner, assert_generations}
use ai_auto_test_platform.Binding.Actions.{
  Action, action_of, audit_action, operation_of, event_of, Held, Effect, settled, moved, act,
}
use ai_auto_test_platform.Binding.Resource.{BindingResource, resource}

abbrev pub put_lease : Lease → List Lease → List Lease
put_lease lease = update_first (is_lease lease.resource_lease_id) (λ _. lease)

abbrev pub put_binding : Binding → List Binding → List Binding
put_binding b = update_first (is_binding b.execution_binding_snapshot_id) (λ _. b)

abbrev pub bumped : ℕ → Binding → Binding
bumped now b = record b { row_version = b.row_version + 1; updated_at = now }

-- What the audit row and the event of one change say.
pub record Change : Type 0 where
  pub actor_id : String
  pub action : String
  pub previous : Option String
  pub reason : String
  pub event_type : String
  pub operation : String
  pub now : ℕ

abbrev pub id_json : String → Dict
id_json id = ("execution_binding_snapshot_id", id) ∷ []

-- The idempotency record of the command is completed under its key.
abbrev pub complete_record : Call → ℕ → Dict → IdempotencyRecord Dict → Table Dict → Table Dict
complete_record call status json r table =
    set_row r.idempotency_key (complete r status (some json) call.completed_at) table

module _ ⦃rt : Runtime⦄ where
  -- `_audit` for a human actor and the result SUCCESS
  unfoldable pub audit : Call → Change → Binding → Store → Store
  audit call c b db =
      let (id, session) = new_ulid db.session in
      record db {
        session = session;
        audits =
            record {
              audit_id = id;
              execution_binding_snapshot_id = b.execution_binding_snapshot_id;
              project_id = b.project_id;
              execution_attempt_id = b.execution_attempt_id;
              action = c.action;
              actor_type = "HUMAN";
              actor_id = c.actor_id;
              previous_status = c.previous;
              new_status = some b.status;
              result_code = "SUCCESS";
              reason = some c.reason;
              identity_generation = b.identity_lease_generation;
              runner_generation = b.runner_lease_generation;
              correlation_id = call.context.correlation_id;
              occurred_at = c.now;
              source_context_hash = rt.sha256 call.context.source_context;
            }
            ∷ db.audits;
      }

  unfoldable pub event_row : Call → Change → Binding → ℕ → String → OutboxEvent
  event_row call c b sequence id = record {
    event_id = id;
    aggregate_id = b.execution_binding_snapshot_id;
    sequence = sequence;
    event_type = c.event_type;
    payload_json = record {
      event_id = id;
      event_type = c.event_type;
      event_version = "1.0.0";
      occurred_at = rt.isoformat c.now;
      aggregate_id = b.execution_binding_snapshot_id;
      sequence = sequence;
      correlation_id = call.context.correlation_id;
      causation_id = c.operation;
      project_id = b.project_id;
      payload = bound (record {
        execution_binding_snapshot_id = b.execution_binding_snapshot_id;
        execution_attempt_id = b.execution_attempt_id;
        status = b.status;
        identity_lease_generation = b.identity_lease_generation;
        runner_lease_generation = b.runner_lease_generation;
      });
    };
    occurred_at = c.now;
    published_at = none;
    attempt_count = 0;
  }

  -- `_event`
  unfoldable pub event : Call → Change → Binding → Store → Store
  event call c b db =
      let sequence = max_sequence b.execution_binding_snapshot_id db.session.outbox + 1 in
      let (id, session) = new_ulid db.session in
      record db { session = add_event (event_row call c b sequence id) session }

  -- The end of `command` for a change: the rows are written, with the evidence.
  unfoldable pub write : Call → Change → Held → Store → Store
  write call c h db =
      let b = bumped c.now h.binding in
      let db₁ : Store = record db {
        bindings = put_binding b db.bindings;
        leases = put_lease h.runner (put_lease h.identity db.leases);
      } in
      let db₂ = event call c b (audit call c b db₁) in record db₂ { session = flush db₂.session }

  unfoldable pub change_of : Action → String → CommandRequest → ℕ → Binding → Change
  change_of action actor_id body now b = record {
    actor_id = actor_id;
    action = audit_action action;
    previous = some b.status;
    reason = body.reason;
    event_type = event_of action;
    operation = operation_of action;
    now = now;
  }

  unfoldable pub finish : Call → Change → IdempotencyRecord Dict → Binding → Effect → Store → Store
  finish call c r b settled db = record db {
    records = complete_record call 200 (id_json b.execution_binding_snapshot_id) r db.records;
  }
  finish call c r b (moved h) db =
      let db' = write call c h db in
      record db' {
        records = complete_record call 200 (id_json b.execution_binding_snapshot_id) r db'.records;
      }

  -- The row that the session holds when `_resource` reads it.
  abbrev pub answer : String → Store → Result (BindingResource × Store)
  answer id db = binding_of id db >>= λ b. resource db b >>= λ r. ok (r, db)

  -- `command` after a claim that is not replayed.
  unfoldable pub execute :
      Call
      → Action
      → String
      → CommandRequest
      → IdempotencyRecord Dict
      → Binding
      → Store
      → Result (BindingResource × Store)
  execute call action actor_id body r b db = server_now call >>= λ now.
      locked_lease b.identity_lease_id db >>= λ identity.
      locked_lease b.runner_lease_id db >>= λ runner.
      let attempt =
        first (λ (a : ExecutionAttempt). str_eq a.execution_attempt_id b.execution_attempt_id)
          db.attempts in
      assert_owner b identity runner attempt body
      >> (assert_generations b identity runner body
          >> (act action db actor_id attempt body now
                (record { binding = b; identity = identity; runner = runner })
              >>= λ effect.
                  answer b.execution_binding_snapshot_id
                    (finish call (change_of action actor_id body now b) r b effect db)))

module _ ⦃rt : Runtime⦄ ⦃enc : Encoding⦄ (service : Service) where
  open service use {authentication, mac, ring, digests_at, printed_at}

  -- `_authenticate`
  unfoldable pub authenticated : Call → String → String → String → Result authentication.Actor
  authenticated call operation project_id permission =
      authentication.authenticate call.bearer_token operation >>= λ actor.
      authentication.require_permissions actor operation (permission ∷ []) project_id >>= λ _.
      ok actor

  -- `self._idempotency.claim`
  abbrev pub claimed : Call → authentication.Actor → String → List ℕ → Store → Result (Claimed Dict)
  claimed call actor operation payload db =
      claim_command enc.utf8 mac ring digests_at printed_at (authentication.user_id actor) operation
        call.key payload none call.claimed_at db.records

  unfoldable pub execute_claimed :
      Call
      → Action
      → String
      → CommandRequest
      → Binding
      → Store
      → Claimed Dict
      → Result (BindingResource × Store)
  execute_claimed call action actor_id body b db (r, (replay, records)) =
      let db' : Store = record db { records = records } in
      if replay
      then answer b.execution_binding_snapshot_id db'
      else execute call action actor_id body r b db'

  unfoldable pub execute_action :
      Call → String → Action → CommandRequest → Store → Result (BindingResource × Store)
  execute_action call binding_id action body db = binding_of binding_id db >>= λ b.
      authenticated call (operation_of action) b.project_id "PROJECT_EDIT" >>= λ actor.
      claimed call actor (operation_of action) (enc.command_json binding_id body) db >>= λ claim.
      execute_claimed call action (authentication.user_id actor) body b db claim

  unfoldable pub command :
      Call → String → String → CommandRequest → Store → Result (BindingResource × Store)
  command call binding_id text body db =
      found (state_conflict "Unsupported binding command.") (action_of text) >>= λ action.
      execute_action call binding_id action body db
