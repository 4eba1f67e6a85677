-- ===== src/Binding/Preflight.antt =====
-- The preflight of a binding: the queries and checks of `_resolve_preflight`.
pub mod Required
pub mod Resolve
use ai_auto_test_platform.Prelude.{
  ℕ, String, Option, none, some, List, [], ◌∷◌, ◌++◌, map, select, Bool, true, false, not, ◌&&◌,
  ◌||◌, leb, str_eq, if◌then◌else◌, concat,
}
use ai_auto_test_platform.Idempotency.{member}
use ai_auto_test_platform.Owner.Rows.{ExecutionAttempt, is_created, is_preparing}
use ai_auto_test_platform.Runners.Readiness.{is_text, is_some, can_continue}
use ai_auto_test_platform.Runners.Rows.{Runner, Capability, Slot, Project}
use ai_auto_test_platform.Runners.Slots.{first}
use ai_auto_test_platform.Binding.Rows.{BindingInput, Policy}
use ai_auto_test_platform.Binding.Facts.{
  Environment, Terminal, AccessRevision, LoginStrategy, TestAccount, Mapping, AccountCredential,
}
use ai_auto_test_platform.Binding.Store.{Store}

-- The rows that the queries find.
pub record Found : Type 0 where
  pub project : Option Project
  pub environment : Option Environment
  pub terminal : Option Terminal
  pub revision : Option AccessRevision
  pub strategy : Option LoginStrategy
  pub account : Option TestAccount
  pub mapping : Option Mapping
  pub credential : Option AccountCredential
  pub attempt : Option ExecutionAttempt
  pub runner : Option Runner
  pub has_resource : Bool
  pub policy : Option Policy

-- `ORDER BY key DESC`, of which the first row is taken.
unfoldable pub newer {ℓ} : {A : Type ℓ} → (A → ℕ) → A → Option A → A
newer key x none = x
newer key x (some y) = if leb (key y) (key x) then x else y

unfoldable pub latest {ℓ} : {A : Type ℓ} → (A → ℕ) → List A → Option A
latest key [] = none
latest key (x ∷ xs) = some (newer key x (latest key xs))

abbrev pub is_project : BindingInput → Project → Bool
is_project body p = str_eq p.project_id body.project_id

abbrev pub is_environment : BindingInput → Environment → Bool
is_environment body e =
    str_eq e.environment_id body.environment_id && is_text e.project_id body.project_id

abbrev pub is_terminal : BindingInput → Terminal → Bool
is_terminal body t =
    str_eq t.business_terminal_id body.business_terminal_id
    && (str_eq t.project_id body.project_id && str_eq t.environment_id body.environment_id)

abbrev pub is_revision : BindingInput → String → AccessRevision → Bool
is_revision body id r =
    str_eq r.environment_terminal_access_revision_id id
    && (str_eq r.business_terminal_id body.business_terminal_id
        && str_eq r.lifecycle_status "PUBLISHED")

unfoldable pub revision_of : BindingInput → Option Terminal → Store → Option AccessRevision
revision_of body none db = none
revision_of body (some t) db = current t.current_published_revision_id
  where
    current : Option String → Option AccessRevision
    current none = none
    current (some id) = first (is_revision body id) db.facts.revisions

abbrev pub is_strategy : BindingInput → String → LoginStrategy → Bool
is_strategy body id s =
    str_eq s.login_strategy_id id
    && (str_eq s.project_id body.project_id && str_eq s.lifecycle_status "ACTIVE")

unfoldable pub strategy_of : BindingInput → Option AccessRevision → Store → Option LoginStrategy
strategy_of body none db = none
strategy_of body (some r) db = named r.login_strategy_id
  where
    named : Option String → Option LoginStrategy
    named none = none
    named (some id) = first (is_strategy body id) db.facts.strategies

abbrev pub is_account : BindingInput → TestAccount → Bool
is_account body a =
    str_eq a.test_account_id body.test_account_id
    && (str_eq a.project_id body.project_id && str_eq a.environment_id body.environment_id)

abbrev pub is_mapping : BindingInput → Mapping → Bool
is_mapping body m =
    str_eq m.test_account_id body.test_account_id
    && (str_eq m.project_id body.project_id
        && (str_eq m.environment_id body.environment_id
            && (str_eq m.business_terminal_id body.business_terminal_id
                && str_eq m.lifecycle_status "PUBLISHED")))

abbrev pub is_credential : BindingInput → AccountCredential → Bool
is_credential body c =
    str_eq c.test_account_id body.test_account_id
    && (str_eq c.project_id body.project_id && str_eq c.lifecycle_status "PUBLISHED")

abbrev pub is_asked_attempt : BindingInput → ExecutionAttempt → Bool
is_asked_attempt body a =
    str_eq a.execution_attempt_id body.execution_attempt_id
    && (is_text a.project_id body.project_id && str_eq a.runner_id body.runner_id)

abbrev pub is_runner : BindingInput → Runner → Bool
is_runner body r = str_eq r.runner_id body.runner_id && str_eq r.project_id body.project_id

abbrev pub is_asked_slot : BindingInput → Slot → Bool
is_asked_slot body s =
    str_eq s.execution_slot_id body.runner_resource_identity
    && (is_text s.project_id body.project_id
        && (is_text s.runner_id body.runner_id && str_eq s.lifecycle_status "ACTIVE"))

-- A capability that is configured, valid and active.
abbrev pub is_usable : Capability → Bool
is_usable c =
    str_eq c.availability_status "CONFIGURED"
    && (str_eq c.validation_status "VALID" && str_eq c.lifecycle_status "ACTIVE")

abbrev pub is_session : BindingInput → Capability → Bool
is_session body c =
    str_eq c.runner_capability_id body.runner_resource_identity
    && (str_eq c.project_id body.project_id
        && (str_eq c.runner_id body.runner_id
            && (str_eq c.capability_type "SESSION" && is_usable c)))

-- The slot or the session capability that the request names.
unfoldable pub resource_found : BindingInput → Store → Bool
resource_found body db =
    if str_eq body.runner_resource_type "FORMAL_EXECUTION_SLOT"
    then is_some (first (is_asked_slot body) db.facts.slots)
    else is_some (first (is_session body) db.facts.capabilities)

abbrev pub is_policy_of : BindingInput → Policy → Bool
is_policy_of body p =
    str_eq p.runtime_policy_revision_id body.runtime_policy_revision_id
    && (str_eq p.project_id body.project_id && str_eq p.lifecycle_status "PUBLISHED")

unfoldable pub find_rows : BindingInput → Store → Found
find_rows body db =
    let terminal = first (is_terminal body) db.facts.terminals in
    let revision = revision_of body terminal db in
    record {
      project = first (is_project body) db.facts.projects;
      environment = first (is_environment body) db.facts.environments;
      terminal = terminal;
      revision = revision;
      strategy = strategy_of body revision db;
      account = first (is_account body) db.facts.accounts;
      mapping = latest (λ (m : Mapping). m.created_at) (select (is_mapping body) db.facts.mappings);
      credential =
          latest (λ (c : AccountCredential). c.revision_no)
            (select (is_credential body) db.facts.credentials);
      attempt = first (is_asked_attempt body) db.attempts;
      runner = first (is_runner body) db.runners;
      has_resource = resource_found body db;
      policy = first (is_policy_of body) db.policies;
    }

-- The conditions of the checks on one row each.
abbrev pub project_ready : Option Project → Bool
project_ready none = false
project_ready (some p) = str_eq p.lifecycle_status "ACTIVE"

abbrev pub environment_ready : Option Environment → Bool
environment_ready none = false
environment_ready (some e) =
    str_eq e.lifecycle_status "ACTIVE" && str_eq e.enablement_state "ENABLED"

abbrev pub terminal_ready : Option Terminal → Bool
terminal_ready none = false
terminal_ready (some t) =
    str_eq t.lifecycle_status "ACTIVE" && is_some t.current_published_revision_id

abbrev pub account_ready : Option TestAccount → Bool
account_ready none = false
account_ready (some a) = str_eq a.lifecycle_status "ACTIVE" && str_eq a.credential_state "VALID"

abbrev pub attempt_ready : BindingInput → Option ExecutionAttempt → Bool
attempt_ready body none = false
attempt_ready body (some a) =
    is_text a.run_task_id body.owner_execution_identity
    && (not (is_some a.execution_binding_snapshot_id)
        && ((str_eq a.execution_status "PRESTART_BLOCKED" || str_eq a.execution_status "READY")
            && (is_created a.lifecycle_status || is_preparing a.lifecycle_status)))

abbrev pub status_of : Option Project → Option String
status_of none = none
status_of (some p) = some p.lifecycle_status

abbrev pub runner_ready : Option Project → Option Runner → Bool
runner_ready project none = false
runner_ready project (some r) =
    can_continue r (status_of project)
    && (str_eq r.resource_status "AVAILABLE" || str_eq r.resource_status "PARTIALLY_OCCUPIED")

abbrev pub policy_ready : Option Policy → Bool
policy_ready none = false
policy_ready (some p) = str_eq p.serial_execution_policy "SINGLE_PROCESS_UNIFIED_RETRY"
