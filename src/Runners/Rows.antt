-- ===== src/Runners/Rows.antt =====
-- The rows of runners, their capabilities and their slots (models.py).
use ai_auto_test_platform.Prelude.{ℕ, String, Option}

pub record Runner : Type 0 where
  pub runner_id : String
  pub project_id : String
  pub runner_code : String
  pub health_status : String
  pub scheduling_status : String
  pub resource_status : String
  pub version_compatibility : String
  pub last_heartbeat_at : Option ℕ
  pub registered_at : ℕ
  pub registration_status : String
  pub connection_status : String
  pub enable_status : String
  pub project_binding_status : String
  pub lifecycle_status : String
  pub display_name : Option String
  pub row_version : ℕ
  pub created_at : ℕ
  pub updated_at : ℕ
  pub created_by : Option String
  pub updated_by : Option String

pub record Capability : Type 0 where
  pub runner_capability_id : String
  pub project_id : String
  pub runner_id : String
  pub capability_code : String
  pub capability_type : String
  pub availability_status : String
  pub validation_status : String
  pub observed_version : Option String
  pub reported_at : ℕ
  pub lifecycle_status : String
  pub display_name : Option String
  pub row_version : ℕ
  pub created_at : ℕ
  pub updated_at : ℕ
  pub created_by : Option String
  pub updated_by : Option String

-- `extension_json` as its two keys, "resource_code" and "capacity".
pub record SlotExtension : Type 0 where
  pub resource_code : String
  pub capacity : ℕ

pub record Slot : Type 0 where
  pub execution_slot_id : String
  pub project_id : Option String
  pub runner_id : Option String
  pub slot_no : Option String
  pub lifecycle_status : String
  pub display_name : Option String
  pub row_version : ℕ
  pub created_at : ℕ
  pub updated_at : ℕ
  pub created_by : Option String
  pub updated_by : Option String
  pub extension_json : Option SlotExtension

-- The columns of `Project` that readiness reads.
pub record Project : Type 0 where
  pub project_id : String
  pub lifecycle_status : String

pub record Lease : Type 0 where
  pub resource_lease_id : String
  pub project_id : String
  pub resource_type : String
  pub resource_identity : String
  pub resource_identity_hash : String
  pub owner_type : String
  pub owner_id : String
  pub status : String
  pub acquired_at : ℕ
  pub expires_at : ℕ
  pub released_at : Option ℕ
  pub fencing_generation : ℕ
  pub correlation_id : String
  pub row_version : ℕ
  pub created_at : ℕ
  pub updated_at : ℕ
