-- ===== src/Binding/Facts.antt =====
-- The columns that the preflight of a binding reads of the rows it rests on (models.py).
use ai_auto_test_platform.Prelude.{ℕ, String, Option, List}
use ai_auto_test_platform.Runners.Rows.{Project, Capability, Slot}

pub record Environment : Type 0 where
  pub environment_id : String
  pub project_id : Option String
  pub lifecycle_status : String
  pub enablement_state : String

pub record Terminal : Type 0 where
  pub business_terminal_id : String
  pub project_id : String
  pub environment_id : String
  pub terminal_type : String
  pub lifecycle_status : String
  pub current_published_revision_id : Option String

-- `TerminalAccessRevision`
pub record AccessRevision : Type 0 where
  pub environment_terminal_access_revision_id : String
  pub business_terminal_id : String
  pub login_strategy_id : Option String
  pub lifecycle_status : String

pub record LoginStrategy : Type 0 where
  pub login_strategy_id : String
  pub project_id : String
  pub lifecycle_status : String
  pub row_version : ℕ

pub record TestAccount : Type 0 where
  pub test_account_id : String
  pub project_id : String
  pub environment_id : String
  pub lifecycle_status : String
  pub credential_state : String
  pub sso_identity_id : Option String

-- `AccountMappingRevision`
pub record Mapping : Type 0 where
  pub account_mapping_revision_id : String
  pub test_account_id : String
  pub project_id : String
  pub environment_id : String
  pub business_terminal_id : String
  pub lifecycle_status : String
  pub created_at : ℕ

-- `CredentialRevision`
pub record AccountCredential : Type 0 where
  pub credential_revision_id : String
  pub test_account_id : String
  pub project_id : String
  pub lifecycle_status : String
  pub revision_no : ℕ

-- The tables that only the preflight reads.
pub record Facts : Type 0 where
  pub projects : List Project
  pub environments : List Environment
  pub terminals : List Terminal
  pub revisions : List AccessRevision
  pub strategies : List LoginStrategy
  pub accounts : List TestAccount
  pub mappings : List Mapping
  pub credentials : List AccountCredential
  pub slots : List Slot
  pub capabilities : List Capability
