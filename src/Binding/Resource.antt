-- ===== src/Binding/Resource.antt =====
-- The answer of the binding service: `_resource` and `_lease_resource`.
use ai_auto_test_platform.Prelude.{ℕ, String, Option, some, List, Bool, str_eq, Result, ok, err}
use ai_auto_test_platform.Runners.Rows.{Lease}
use ai_auto_test_platform.Runners.Slots.{first}
use ai_auto_test_platform.Binding.Rows.{Binding, Policy, CapabilityFact}
use ai_auto_test_platform.Binding.Store.{Store, is_lease, state_conflict}

pub record LeaseResource : Type 0 where
  pub resource_lease_id : String
  pub resource_type : String
  pub resource_identity : String
  pub owner_type : String
  pub owner_id : String
  pub status : String
  pub acquired_at : ℕ
  pub expires_at : ℕ
  pub released_at : Option ℕ
  pub fencing_generation : ℕ
  pub row_version : ℕ

unfoldable pub lease_resource : Lease → LeaseResource
lease_resource lease = record {
  resource_lease_id = lease.resource_lease_id;
  resource_type = lease.resource_type;
  resource_identity = lease.resource_identity;
  owner_type = lease.owner_type;
  owner_id = lease.owner_id;
  status = lease.status;
  acquired_at = lease.acquired_at;
  expires_at = lease.expires_at;
  released_at = lease.released_at;
  fencing_generation = lease.fencing_generation;
  row_version = lease.row_version;
}

-- `RuntimePolicySnapshot`
pub record PolicySnapshot : Type 0 where
  pub runtime_policy_revision_id : String
  pub revision_no : ℕ
  pub browser_runtime : String
  pub artifact_policy : String
  pub timeout_seconds : ℕ
  pub max_steps : ℕ
  pub total_exploration_timeout_seconds : ℕ
  pub model_transient_retry_per_step : ℕ
  pub allowed_origins : List String
  pub authentication_redirect_origins : List String
  pub retry_mode : String
  pub network_requirement : String
  pub serial_execution_policy : String

unfoldable pub policy_snapshot : Policy → PolicySnapshot
policy_snapshot p = record {
  runtime_policy_revision_id = p.runtime_policy_revision_id;
  revision_no = p.revision_no;
  browser_runtime = p.browser_runtime;
  artifact_policy = p.artifact_policy;
  timeout_seconds = p.timeout_seconds;
  max_steps = p.max_steps;
  total_exploration_timeout_seconds = p.total_exploration_timeout_seconds;
  model_transient_retry_per_step = p.model_transient_retry_per_step;
  allowed_origins = p.allowed_origins;
  authentication_redirect_origins = p.authentication_redirect_origins;
  retry_mode = p.retry_mode;
  network_requirement = p.network_requirement;
  serial_execution_policy = p.serial_execution_policy;
}

-- `ExecutionBindingSnapshotResource`
pub record BindingResource : Type 0 where
  pub execution_binding_snapshot_id : String
  pub execution_attempt_id : String
  pub project_id : String
  pub environment_id : String
  pub business_terminal_id : String
  pub terminal_access_revision_id : String
  pub login_strategy_id : String
  pub login_strategy_row_version : ℕ
  pub test_account_id : String
  pub credential_revision_id : String
  pub account_mapping_revision_id : String
  pub runner_id : String
  pub runner_row_version : ℕ
  pub runner_heartbeat_at : ℕ
  pub runner_capabilities : List CapabilityFact
  pub runtime_policy : PolicySnapshot
  pub identity_lease : LeaseResource
  pub runner_lease : LeaseResource
  pub owner_execution_identity : String
  pub correlation_id : String
  pub status : String
  pub row_version : ℕ
  pub created_at : ℕ
  pub updated_at : ℕ
  pub released_at : Option ℕ
  pub expired_at : Option ℕ

unfoldable pub binding_resource : Binding → Lease → Lease → Policy → BindingResource
binding_resource b identity runner policy = record {
  execution_binding_snapshot_id = b.execution_binding_snapshot_id;
  execution_attempt_id = b.execution_attempt_id;
  project_id = b.project_id;
  environment_id = b.environment_id;
  business_terminal_id = b.business_terminal_id;
  terminal_access_revision_id = b.terminal_access_revision_id;
  login_strategy_id = b.login_strategy_id;
  login_strategy_row_version = b.login_strategy_row_version;
  test_account_id = b.test_account_id;
  credential_revision_id = b.credential_revision_id;
  account_mapping_revision_id = b.account_mapping_revision_id;
  runner_id = b.runner_id;
  runner_row_version = b.runner_row_version;
  runner_heartbeat_at = b.runner_heartbeat_at;
  runner_capabilities = b.runner_capability_snapshot;
  runtime_policy = policy_snapshot policy;
  identity_lease = lease_resource identity;
  runner_lease = lease_resource runner;
  owner_execution_identity = b.owner_execution_identity;
  correlation_id = b.correlation_id;
  status = b.status;
  row_version = b.row_version;
  created_at = b.created_at;
  updated_at = b.updated_at;
  released_at = b.released_at;
  expired_at = b.expired_at;
}

abbrev pub is_policy : String → Policy → Bool
is_policy id p = str_eq p.runtime_policy_revision_id id

-- `_resource` with the rows that `db.get` finds.
unfoldable pub resource_with :
    Binding → Option Lease → Option Lease → Option Policy → Result BindingResource
resource_with b (some identity) (some runner) (some policy) =
    ok (binding_resource b identity runner policy)
resource_with b _ _ _ =
    err (state_conflict "The binding snapshot references unavailable immutable facts.")

unfoldable pub resource : Store → Binding → Result BindingResource
resource db b =
    resource_with b (first (is_lease b.identity_lease_id) db.leases)
      (first (is_lease b.runner_lease_id) db.leases)
      (first (is_policy b.runtime_policy_revision_id) db.policies)
