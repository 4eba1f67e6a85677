-- ===== src/Binding/Creation.antt =====
-- The preflight and the creation of a binding as transactions: `preflight` and `create`.
use ai_auto_test_platform.Prelude.{
  ℕ, String, Option, none, some, List, [], ◌∷◌, Bool, str_eq, if◌then◌else◌, concat, Error, Result,
  ok, err, ◌>>=◌, platform_error, runtime_error,
}
use ai_auto_test_platform.Runtime.{Runtime}
use ai_auto_test_platform.Idempotency.{IdempotencyRecord, Claimed}
use ai_auto_test_platform.Owner.Rows.{RunTask, ExecutionAttempt, Dict}
use ai_auto_test_platform.Owner.Session.{new_ulid, flush}
use ai_auto_test_platform.Owner.Transition.{Command}
use ai_auto_test_platform.Owner.Task.{prepare_run_task}
use ai_auto_test_platform.Owner.Attempt.{prepare_execution_attempt}
use ai_auto_test_platform.Runners.Rows.{Lease}
use ai_auto_test_platform.Runners.Slots.{first, update_first}
use ai_auto_test_platform.Binding.Rows.{Binding, BindingInput}
use ai_auto_test_platform.Binding.Store.{Store, Encoding, Service, Call, found, server_now}
use ai_auto_test_platform.Binding.Leases.{Acquisition, acquire_lease, identity_ttl, runner_ttl}
use ai_auto_test_platform.Binding.Resource.{BindingResource}
use ai_auto_test_platform.Binding.Command.{
  Change, audit, event, complete_record, id_json, authenticated, claimed, answer,
}
use ai_auto_test_platform.Binding.Carried.{is_attempt}
use ai_auto_test_platform.Binding.Preflight.Required.{dict_get}
use ai_auto_test_platform.Binding.Preflight.Resolve.{
  Check, PreflightResult, Resolved, Preflight, rejected, resolved, resolve_preflight, assertion,
}

-- `', '.join(items)`
unfoldable pub join : List String → String
join [] = ""
join (x ∷ []) = x
join (x ∷ y ∷ rest) = concat x (concat ", " (join (y ∷ rest)))

unfoldable pub failed_codes : List Check → List String
failed_codes [] = []
failed_codes (c ∷ cs) =
    let rest = failed_codes cs in if str_eq c.status "FAIL" then c.code ∷ rest else rest

unfoldable pub preflight_failed : PreflightResult → Error
preflight_failed result =
    platform_error 409 "EXECUTION_BINDING_PREFLIGHT_FAILED"
      (concat "Preflight failed: " (join (failed_codes result.checks)))

-- The row that `_persistence_conflict` makes of an INSERT without a required value.
abbrev pub persistence_conflict : Error
persistence_conflict =
    platform_error 409 "EXECUTION_BINDING_PERSISTENCE_CONFLICT"
      "The command could not be committed atomically."

abbrev pub create_operation : String
create_operation = "create_execution_binding_snapshot"

abbrev pub is_task : String → RunTask → Bool
is_task id t = str_eq t.run_task_id id

abbrev pub identity_acquisition : Call → BindingInput → Resolved → String → ℕ → Acquisition
identity_acquisition call body x root now = record {
  project_id = body.project_id;
  resource_type = "IDENTITY";
  resource_identity = x.identity_resource;
  owner_type = "FORMAL_ROOT_EXECUTION_TASK";
  owner_id = root;
  ttl_seconds = identity_ttl;
  now = now;
  correlation_id = call.context.correlation_id;
}

abbrev pub runner_acquisition : Call → BindingInput → Resolved → ℕ → Acquisition
runner_acquisition call body x now = record {
  project_id = body.project_id;
  resource_type = "RUNNER";
  resource_identity = x.runner_resource;
  owner_type = "EXECUTION_ATTEMPT";
  owner_id = body.execution_attempt_id;
  ttl_seconds = runner_ttl;
  now = now;
  correlation_id = call.context.correlation_id;
}

unfoldable pub new_binding :
    Call → BindingInput → Resolved → Lease → Lease → String → ℕ → ℕ → String → Binding
new_binding call body x identity runner actor_id heartbeat now id = record {
  execution_binding_snapshot_id = id;
  execution_attempt_id = body.execution_attempt_id;
  project_id = body.project_id;
  environment_id = body.environment_id;
  business_terminal_id = body.business_terminal_id;
  terminal_access_revision_id = x.terminal_revision.environment_terminal_access_revision_id;
  login_strategy_id = x.login_strategy.login_strategy_id;
  login_strategy_row_version = x.login_strategy.row_version;
  test_account_id = body.test_account_id;
  credential_revision_id = x.credential.credential_revision_id;
  account_mapping_revision_id = x.mapping.account_mapping_revision_id;
  runner_id = body.runner_id;
  runner_row_version = x.runner.row_version;
  runner_heartbeat_at = heartbeat;
  runner_capability_snapshot = x.capability_snapshot;
  runtime_policy_revision_id = body.runtime_policy_revision_id;
  identity_lease_id = identity.resource_lease_id;
  identity_lease_generation = identity.fencing_generation;
  runner_lease_id = runner.resource_lease_id;
  runner_lease_generation = runner.fencing_generation;
  owner_execution_identity = body.owner_execution_identity;
  correlation_id = call.context.correlation_id;
  status = "READY";
  row_version = 1;
  created_at = now;
  updated_at = now;
  released_at = none;
  expired_at = none;
  created_by = actor_id;
}

abbrev pub creation : String → ℕ → Change
creation actor_id now = record {
  actor_id = actor_id;
  action = "CREATE";
  previous = none;
  reason = "preflight and atomic lease acquisition passed";
  event_type = "execution_binding_snapshot.ready";
  operation = create_operation;
  now = now;
}

abbrev pub owner_summary : Binding → Dict
owner_summary b =
    ("execution_binding_snapshot_id", b.execution_binding_snapshot_id)
    ∷ ("runner_id", b.runner_id)
    ∷ []

abbrev pub owner_command : Call → String → ℕ → Command
owner_command call actor_id now = record {
  actor_user_id = actor_id;
  operation_id = create_operation;
  context = call.context;
  now = now;
}

module _ ⦃rt : Runtime⦄ where
  -- The attempt points at the binding, and the task and the attempt are prepared.
  unfoldable pub bind_owners : Command → Binding → String → ExecutionAttempt → Store → Result Store
  bind_owners c b root attempt db =
      found (runtime_error "ExecutionBinding RunTask disappeared") (first (is_task root) db.tasks)
      >>= λ task. prepare_run_task c (owner_summary b) task db.session >>= λ (task', session).
          prepare_execution_attempt c (owner_summary b)
            (record attempt {
              execution_binding_snapshot_id = some b.execution_binding_snapshot_id;
            })
            session
          >>= λ (attempt', session'). ok (record db {
            tasks = update_first (is_task root) (λ _. task') db.tasks;
            attempts =
                update_first (is_attempt attempt.execution_attempt_id) (λ _. attempt') db.attempts;
            session = session';
          })

  -- The evidence of the creation, and the end of the transaction.
  unfoldable pub close_creation : Call → Change → IdempotencyRecord Dict → Binding → Store → Store
  close_creation call c r b db =
      let db' = event call c b (audit call c b db) in
      record db' {
        session = flush db'.session;
        records = complete_record call 201 (id_json b.execution_binding_snapshot_id) r db'.records;
      }

  -- The binding's row under a new id, behind the two leases.
  unfoldable pub insert_binding :
      Call → BindingInput → Resolved → Lease → Lease → String → ℕ → ℕ → Store → Binding × Store
  insert_binding call body x identity runner actor_id heartbeat now db =
      let (id, session) = new_ulid db.session in
      let b = new_binding call body x identity runner actor_id heartbeat now id in
      (b, record db { bindings = b ∷ db.bindings; session = flush session })

module _ ⦃rt : Runtime⦄ ⦃enc : Encoding⦄ where
  unfoldable pub create_resolved :
      Call
      → BindingInput
      → String
      → IdempotencyRecord Dict
      → Resolved
      → Store
      → Result (BindingResource × Store)
  create_resolved call body actor_id r x db = server_now call >>= λ now.
      found assertion x.attempt.run_task_id >>= λ root.
      acquire_lease (identity_acquisition call body x root now) db >>= λ (identity, db₁).
      acquire_lease (runner_acquisition call body x now) db₁ >>= λ (runner, db₂).
      found persistence_conflict x.runner.last_heartbeat_at >>= λ heartbeat.
      let (b, db₃) = insert_binding call body x identity runner actor_id heartbeat now db₂ in
      bind_owners (owner_command call actor_id now) b root x.attempt db₃ >>= λ db₄.
      answer b.execution_binding_snapshot_id (close_creation call (creation actor_id now) r b db₄)

  unfoldable pub create_after :
      Call
      → BindingInput
      → String
      → IdempotencyRecord Dict
      → Store
      → Preflight
      → Result (BindingResource × Store)
  create_after call body actor_id r db (rejected result) = err (preflight_failed result)
  create_after call body actor_id r db (resolved x) = create_resolved call body actor_id r x db

  -- `create` after a claim that is not replayed
  unfoldable pub create_fresh :
      Call
      → BindingInput
      → String
      → IdempotencyRecord Dict
      → Store
      → Result (BindingResource × Store)
  create_fresh call body actor_id r db =
      resolve_preflight call body db >>= λ outcome. create_after call body actor_id r db outcome

  -- `(record.response_json or {}).get("execution_binding_snapshot_id", "")`
  abbrev pub response_id : Option Dict → String
  response_id none = ""
  response_id (some json) = id (dict_get "execution_binding_snapshot_id" json)
    where
      id : Option String → String
      id none = ""
      id (some t) = t

  unfoldable pub create_claimed :
      Call → BindingInput → String → Store → Claimed Dict → Result (BindingResource × Store)
  create_claimed call body actor_id db (r, (replay, records)) =
      let db' : Store = record db { records = records } in
      if replay
      then answer (response_id r.response_json) db'
      else create_fresh call body actor_id r db'

  unfoldable pub result_of_preflight : Preflight → PreflightResult
  result_of_preflight (rejected result) = result
  result_of_preflight (resolved x) = x.result

  module _ (service : Service) where
    open service use {authentication}

    unfoldable pub preflight : Call → BindingInput → Store → Result PreflightResult
    preflight call body db =
        authenticated service call "preflight_execution_binding_snapshot" body.project_id
          "PROJECT_EDIT"
        >>= λ _. resolve_preflight call body db >>= λ outcome. ok (result_of_preflight outcome)

    unfoldable pub create : Call → BindingInput → Store → Result (BindingResource × Store)
    create call body db =
        authenticated service call create_operation body.project_id "PROJECT_EDIT" >>= λ actor.
        claimed service call actor create_operation (enc.input_json body) db >>= λ claim.
        create_claimed call body (authentication.user_id actor) db claim
