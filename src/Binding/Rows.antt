-- ===== src/Binding/Rows.antt =====
-- The rows of execution bindings (models.py) and the bodies of their requests
-- (execution_binding_schemas.py). The row of a lease is that of the slots.
use ai_auto_test_platform.Prelude.{ℕ, String, Option, List}

pub record Generation : Type 0 where
  pub resource_type : String
  pub resource_identity_hash : String
  pub current_generation : ℕ
  pub updated_at : ℕ

-- One object of `runner_capability_snapshot`.
pub record CapabilityFact : Type 0 where
  pub capability_code : String
  pub capability_type : String
  pub availability_status : String
  pub validation_status : String
  pub lifecycle_status : String
  pub observed_version : Option String
  pub reported_at : String

-- `ExecutionBindingSnapshot`
pub record Binding : Type 0 where
  pub execution_binding_snapshot_id : String
  pub execution_attempt_id : String
  pub project_id : String
  pub environment_id : String
  pub business_terminal_id : String
  pub terminal_access_revision_id : String
  pub login_strategy_id : String
  pub login_strategy_row_version : ℕ
  pub test_account_id : String
  pub credential_revision_id : String
  pub account_mapping_revision_id : String
  pub runner_id : String
  pub runner_row_version : ℕ
  pub runner_heartbeat_at : ℕ
  pub runner_capability_snapshot : List CapabilityFact
  pub runtime_policy_revision_id : String
  pub identity_lease_id : String
  pub identity_lease_generation : ℕ
  pub runner_lease_id : String
  pub runner_lease_generation : ℕ
  pub owner_execution_identity : String
  pub correlation_id : String
  pub status : String
  pub row_version : ℕ
  pub created_at : ℕ
  pub updated_at : ℕ
  pub released_at : Option ℕ
  pub expired_at : Option ℕ
  pub created_by : String

pub record BindingAudit : Type 0 where
  pub audit_id : String
  pub execution_binding_snapshot_id : String
  pub project_id : String
  pub execution_attempt_id : String
  pub action : String
  pub actor_type : String
  pub actor_id : String
  pub previous_status : Option String
  pub new_status : Option String
  pub result_code : String
  pub reason : Option String
  -- `lease_generations_json`: its keys "identity" and "runner"
  pub identity_generation : ℕ
  pub runner_generation : ℕ
  pub correlation_id : String
  pub occurred_at : ℕ
  pub source_context_hash : String

-- The columns of a role and of its grant to a user that the recovery reads.
pub record Role : Type 0 where
  pub role_id : String
  pub role_code : String
  pub lifecycle_status : String

pub record UserRoleBinding : Type 0 where
  pub user_id : String
  pub role_id : String
  pub valid_from : ℕ
  pub valid_to : Option ℕ

-- `ProjectRuntimePolicyRevision`
pub record Policy : Type 0 where
  pub runtime_policy_revision_id : String
  pub project_id : String
  pub revision_no : ℕ
  pub browser_runtime : String
  pub artifact_policy : String
  pub timeout_seconds : ℕ
  pub max_steps : ℕ
  pub total_exploration_timeout_seconds : ℕ
  pub model_transient_retry_per_step : ℕ
  pub allowed_origins : List String
  pub authentication_redirect_origins : List String
  pub retry_mode : String
  pub network_requirement : String
  pub serial_execution_policy : String
  pub lifecycle_status : String
  pub row_version : ℕ
  pub created_at : ℕ
  pub updated_at : ℕ
  pub created_by : String
  pub updated_by : String

-- `CreateRuntimePolicyRevisionRequest`, where an origin is the text of its URL.
pub record PolicyRequest : Type 0 where
  pub project_id : String
  pub browser_runtime : String
  pub artifact_policy : String
  pub timeout_seconds : ℕ
  pub max_steps : ℕ
  pub total_exploration_timeout_seconds : ℕ
  pub model_transient_retry_per_step : ℕ
  pub allowed_origins : List String
  pub authentication_redirect_origins : List String
  pub retry_mode : String
  pub network_requirement : String
  pub serial_execution_policy : String
  pub reason : String

-- `RuntimePolicyRevisionResource`
pub record PolicyResource : Type 0 where
  pub runtime_policy_revision_id : String
  pub project_id : String
  pub revision_no : ℕ
  pub browser_runtime : String
  pub artifact_policy : String
  pub timeout_seconds : ℕ
  pub max_steps : ℕ
  pub total_exploration_timeout_seconds : ℕ
  pub model_transient_retry_per_step : ℕ
  pub allowed_origins : List String
  pub authentication_redirect_origins : List String
  pub retry_mode : String
  pub network_requirement : String
  pub serial_execution_policy : String
  pub lifecycle_status : String
  pub row_version : ℕ

-- `policy_snapshot_json` is the JSON of the resource.
pub record PolicyAudit : Type 0 where
  pub audit_id : String
  pub runtime_policy_revision_id : String
  pub project_id : String
  pub action : String
  pub actor_user_id : String
  pub required_permission : String
  pub previous_status : Option String
  pub new_status : String
  pub result_code : String
  pub reason : String
  pub policy_snapshot_json : PolicyResource
  pub correlation_id : String
  pub occurred_at : ℕ
  pub source_context_hash : String

-- `BindingCommandRequest`; a `RecoverBindingRequest` is one with evidence.
pub record CommandRequest : Type 0 where
  pub owner_execution_identity : String
  pub expected_version : ℕ
  pub identity_lease_generation : ℕ
  pub runner_lease_generation : ℕ
  pub reason : String
  pub recovery_evidence : Option String

-- `ExecutionBindingInput`
pub record BindingInput : Type 0 where
  pub execution_attempt_id : String
  pub project_id : String
  pub environment_id : String
  pub business_terminal_id : String
  pub test_account_id : String
  pub runner_id : String
  pub runtime_policy_revision_id : String
  pub runner_resource_type : String
  pub runner_resource_identity : String
  pub owner_execution_identity : String
  pub required_capabilities : List String
