-- ===== src/Binding/Samples.antt =====
-- Concrete rows for the tests of bindings.
use ai_auto_test_platform.Prelude.{ℕ, zero, suc, String, none, some, [], ◌∷◌, concat}
use ai_auto_test_platform.Runtime.{Runtime}
use ai_auto_test_platform.Idempotency.{IdempotencyRecord}
use ai_auto_test_platform.Owner.Rows.{Dict, RunTask, ExecutionAttempt, Lifecycle, created}
use ai_auto_test_platform.Runners.Rows.{Runner, Capability, Slot, Lease}
use ai_auto_test_platform.Binding.Rows.{Binding, BindingInput, Policy, Generation, CommandRequest}
use ai_auto_test_platform.Binding.Actions.{Held}
use ai_auto_test_platform.Binding.Facts.{Facts}
use ai_auto_test_platform.Binding.Store.{Store, Encoding, Call}

unfoldable pub ulid_text : ℕ → String
ulid_text zero = "U"
ulid_text (suc n) = concat "U" (ulid_text n)

instance abbrev pub runtime : Runtime
runtime = record {
  ulid = ulid_text;
  refresh_token = λ n. "token";
  clock = λ n. n;
  sha256 = λ s. s;
  isoformat = λ n. "2026-07-01T00:00:00";
}

instance abbrev pub encoding : Encoding
encoding = record {
  utf8 = λ s. [];
  digest = λ bytes. "digest";
  hexdigest = λ s. s;
  repr = λ codes. "[]";
  command_json = λ id body. [];
  input_json = λ body. [];
  policy_json = λ body. [];
}

abbrev pub call : Call
call = record {
  bearer_token = "token";
  key = "key";
  context = record { correlation_id = "c"; source_context = "s" };
  server_time = some 5;
  claimed_at = 5;
  completed_at = 6;
}

-- A request before the leases of `held` expire; `call` comes after.
abbrev pub early : Call
early = record call { server_time = some 3 }

abbrev pub claimed : IdempotencyRecord Dict
claimed = record {
  idempotency_key = "key";
  contract_version = 2;
  principal_id = some "user";
  operation_id = "operation";
  request_hash = "print";
  response_status = none;
  response_json = none;
  completed_at = none;
  expires_at = 100;
}

abbrev pub life : Lifecycle
life = record {
  project_id = some "project";
  lifecycle_status = created;
  row_version = 1;
  updated_at = 0;
  updated_by = none;
}

abbrev pub task : RunTask
task = record {
  run_task_id = "task";
  lifecycle = life;
  idempotency_key = none;
  case_suite_id = none;
  environment_id = "environment";
  task_type = none;
  task_state = "CREATED";
  final_result = "UNKNOWN";
  display_name = none;
  created_at = 0;
  created_by = none;
}

abbrev pub attempt : ExecutionAttempt
attempt = record {
  execution_attempt_id = "attempt";
  execution_binding_snapshot_id = none;
  lifecycle = life;
  run_task_id = some "task";
  attempt_no = none;
  case_attempt_id = none;
  runner_id = "runner";
  configuration_snapshot_id = none;
  execution_batch_id = none;
  lease_id = none;
  execution_lock_id = none;
  execution_status = "READY";
  finalization_status = "PENDING";
  display_name = none;
  created_at = 0;
  created_by = none;
}

abbrev pub runner : Runner
runner = record {
  runner_id = "runner";
  project_id = "project";
  runner_code = "r1";
  health_status = "HEALTHY";
  scheduling_status = "IDLE";
  resource_status = "AVAILABLE";
  version_compatibility = "COMPATIBLE";
  last_heartbeat_at = some 1;
  registered_at = 0;
  registration_status = "REGISTERED";
  connection_status = "ONLINE";
  enable_status = "ENABLED";
  project_binding_status = "BOUND";
  lifecycle_status = "ACTIVE";
  display_name = none;
  row_version = 0;
  created_at = 0;
  updated_at = 0;
  created_by = none;
  updated_by = none;
}

abbrev pub capability : String → Capability
capability code = record {
  runner_capability_id = code;
  project_id = "project";
  runner_id = "runner";
  capability_code = code;
  capability_type = "EXECUTION";
  availability_status = "CONFIGURED";
  validation_status = "VALID";
  observed_version = none;
  reported_at = 0;
  lifecycle_status = "ACTIVE";
  display_name = none;
  row_version = 0;
  created_at = 0;
  updated_at = 0;
  created_by = none;
  updated_by = none;
}

abbrev pub slot : Slot
slot = record {
  execution_slot_id = "slot";
  project_id = some "project";
  runner_id = some "runner";
  slot_no = some "0";
  lifecycle_status = "ACTIVE";
  display_name = none;
  row_version = 0;
  created_at = 0;
  updated_at = 0;
  created_by = none;
  updated_by = none;
  extension_json = none;
}

abbrev pub policy : Policy
policy = record {
  runtime_policy_revision_id = "policy";
  project_id = "project";
  revision_no = 1;
  browser_runtime = "CHROMIUM";
  artifact_policy = "NONE";
  timeout_seconds = 60;
  max_steps = 10;
  total_exploration_timeout_seconds = 600;
  model_transient_retry_per_step = 1;
  allowed_origins = [];
  authentication_redirect_origins = [];
  retry_mode = "NONE";
  network_requirement = "NONE";
  serial_execution_policy = "SINGLE_PROCESS_UNIFIED_RETRY";
  lifecycle_status = "PUBLISHED";
  row_version = 1;
  created_at = 0;
  updated_at = 0;
  created_by = "user";
  updated_by = "user";
}

abbrev pub facts : Facts
facts = record {
  projects = record { project_id = "project"; lifecycle_status = "ACTIVE" } ∷ [];
  environments =
      record {
        environment_id = "environment";
        project_id = some "project";
        lifecycle_status = "ACTIVE";
        enablement_state = "ENABLED";
      }
      ∷ [];
  terminals =
      record {
        business_terminal_id = "terminal";
        project_id = "project";
        environment_id = "environment";
        terminal_type = "CLIENT";
        lifecycle_status = "ACTIVE";
        current_published_revision_id = some "revision";
      }
      ∷ [];
  revisions =
      record {
        environment_terminal_access_revision_id = "revision";
        business_terminal_id = "terminal";
        login_strategy_id = some "strategy";
        lifecycle_status = "PUBLISHED";
      }
      ∷ [];
  strategies =
      record {
        login_strategy_id = "strategy";
        project_id = "project";
        lifecycle_status = "ACTIVE";
        row_version = 1;
      }
      ∷ [];
  accounts =
      record {
        test_account_id = "account";
        project_id = "project";
        environment_id = "environment";
        lifecycle_status = "ACTIVE";
        credential_state = "VALID";
        sso_identity_id = none;
      }
      ∷ [];
  mappings =
      record {
        account_mapping_revision_id = "mapping";
        test_account_id = "account";
        project_id = "project";
        environment_id = "environment";
        business_terminal_id = "terminal";
        lifecycle_status = "PUBLISHED";
        created_at = 0;
      }
      ∷ [];
  credentials =
      record {
        credential_revision_id = "credential";
        test_account_id = "account";
        project_id = "project";
        lifecycle_status = "PUBLISHED";
        revision_no = 1;
      }
      ∷ [];
  slots = slot ∷ [];
  capabilities =
      capability "FORMAL_EXECUTION"
      ∷ capability "TERMINAL_CLIENT_WEB"
      ∷ capability "BROWSER_CHROMIUM"
      ∷ [];
}

abbrev pub input : BindingInput
input = record {
  execution_attempt_id = "attempt";
  project_id = "project";
  environment_id = "environment";
  business_terminal_id = "terminal";
  test_account_id = "account";
  runner_id = "runner";
  runtime_policy_revision_id = "policy";
  runner_resource_type = "FORMAL_EXECUTION_SLOT";
  runner_resource_identity = "slot";
  owner_execution_identity = "task";
  required_capabilities = [];
}

-- A store before any binding, and with no administrator but "admin".
abbrev pub before : Store
before = record {
  generations = [];
  leases = [];
  bindings = [];
  attempts = attempt ∷ [];
  tasks = task ∷ [];
  runners = runner ∷ [];
  roles =
      record { role_id = "role"; role_code = "ROLE-PLATFORM-ADMIN"; lifecycle_status = "ACTIVE" }
      ∷ [];
  user_roles = record { user_id = "admin"; role_id = "role"; valid_from = 0; valid_to = none } ∷ [];
  policies = policy ∷ [];
  policy_audits = [];
  facts = facts;
  audits = [];
  records = λ key. none;
  session = record {
    audits = [];
    outbox = [];
    pending_audits = [];
    pending_outbox = [];
    drawn = 0;
  };
}

-- The rows of a binding that has been created.
abbrev pub lease : String → String → String → String → Lease
lease id resource_type owner_type owner_id = record {
  resource_lease_id = id;
  project_id = "project";
  resource_type = resource_type;
  resource_identity = "resource";
  resource_identity_hash = "digest";
  owner_type = owner_type;
  owner_id = owner_id;
  status = "ACTIVE";
  acquired_at = 1;
  expires_at = 4;
  released_at = none;
  fencing_generation = 1;
  correlation_id = "c";
  row_version = 1;
  created_at = 1;
  updated_at = 1;
}

abbrev pub binding : Binding
binding = record {
  execution_binding_snapshot_id = "binding";
  execution_attempt_id = "attempt";
  project_id = "project";
  environment_id = "environment";
  business_terminal_id = "terminal";
  terminal_access_revision_id = "revision";
  login_strategy_id = "strategy";
  login_strategy_row_version = 1;
  test_account_id = "account";
  credential_revision_id = "credential";
  account_mapping_revision_id = "mapping";
  runner_id = "runner";
  runner_row_version = 0;
  runner_heartbeat_at = 1;
  runner_capability_snapshot = [];
  runtime_policy_revision_id = "policy";
  identity_lease_id = "lease 1";
  identity_lease_generation = 1;
  runner_lease_id = "lease 2";
  runner_lease_generation = 1;
  owner_execution_identity = "task";
  correlation_id = "c";
  status = "READY";
  row_version = 1;
  created_at = 1;
  updated_at = 1;
  released_at = none;
  expired_at = none;
  created_by = "user";
}

abbrev pub held : Held
held = record {
  binding = binding;
  identity = lease "lease 1" "IDENTITY" "FORMAL_ROOT_EXECUTION_TASK" "task";
  runner = lease "lease 2" "RUNNER" "EXECUTION_ATTEMPT" "attempt";
}

abbrev pub generation : String → Generation
generation resource_type = record {
  resource_type = resource_type;
  resource_identity_hash = "digest";
  current_generation = 1;
  updated_at = 1;
}

abbrev pub bound_attempt : ExecutionAttempt
bound_attempt = record attempt { execution_binding_snapshot_id = some "binding" }

abbrev pub during : Store
during = record before {
  generations = generation "IDENTITY" ∷ generation "RUNNER" ∷ [];
  leases = held.runner ∷ held.identity ∷ [];
  bindings = binding ∷ [];
  attempts = bound_attempt ∷ [];
}

abbrev pub body : ℕ → CommandRequest
body generation = record {
  owner_execution_identity = "task";
  expected_version = 1;
  identity_lease_generation = generation;
  runner_lease_generation = 1;
  reason = "reason";
  recovery_evidence = some "evidence";
}
