-- ===== src/Runners/Readiness.antt =====
-- The blockers and the scheduling projection of runner_readiness.py.
pub mod Trust
use ai_auto_test_platform.Prelude.{
  String, Option, none, some, List, [], ◌∷◌, ◌++◌, Bool, true, false, not, ◌||◌, str_eq,
  if◌then◌else◌, concat,
}
use ai_auto_test_platform.Runners.Rows.{Runner}

-- `[detail for passed, detail in checks if not passed]`
unfoldable pub failing : List (Bool × String) → List String
failing [] = []
failing ((passed, detail) ∷ checks) =
    let rest = failing checks in if passed then rest else detail ∷ rest

-- `project_lifecycle_status or 'MISSING'`: None and the empty text.
abbrev or_missing : Option String → String
or_missing none = "MISSING"
or_missing (some s) = if str_eq s "" then "MISSING" else s

abbrev pub is_text : Option String → String → Bool
is_text none text = false
is_text (some s) text = str_eq s text

abbrev pub is_some {ℓ} : {A : Type ℓ} → Option A → Bool
is_some none = false
is_some (some a) = true

-- `checks`: each condition with the text that reports its failure.
abbrev pub base_checks : Runner → Option String → List (Bool × String)
base_checks runner project =
    (is_text project "ACTIVE", concat "project_lifecycle_status=" (or_missing project))
    ∷ (str_eq runner.lifecycle_status "ACTIVE", concat "lifecycle_status=" runner.lifecycle_status)
    ∷ (
      str_eq runner.registration_status "REGISTERED",
      concat "registration_status=" runner.registration_status,
    )
    ∷ (str_eq runner.enable_status "ENABLED", concat "enable_status=" runner.enable_status)
    ∷ (
      str_eq runner.project_binding_status "BOUND",
      concat "project_binding_status=" runner.project_binding_status,
    )
    ∷ (
      str_eq runner.connection_status "ONLINE",
      concat "connection_status=" runner.connection_status,
    )
    ∷ (str_eq runner.health_status "HEALTHY", concat "health_status=" runner.health_status)
    ∷ (is_some runner.last_heartbeat_at, "last_heartbeat_at=MISSING")
    ∷ (
      str_eq runner.version_compatibility "COMPATIBLE",
      concat "version_compatibility=" runner.version_compatibility,
    )
    ∷ []

-- `runner_base_execution_blockers`
unfoldable pub base_blockers : Runner → Option String → List String
unfolding failing
base_blockers runner project = failing (base_checks runner project)

-- `_RESOURCE_TO_SCHEDULING.get(resource, "UNSCHEDULABLE")`
unfoldable pub resource_to_scheduling : String → String
resource_to_scheduling resource =
    if str_eq resource "AVAILABLE"
    then "IDLE"
    else if str_eq resource "PARTIALLY_OCCUPIED"
    then "PARTIALLY_OCCUPIED"
    else if str_eq resource "EXHAUSTED"
    then "BUSY"
    else if str_eq resource "RECLAIMING"
    then "DRAINING"
    else "UNSCHEDULABLE"

abbrev pub is_empty {ℓ} : {A : Type ℓ} → List A → Bool
is_empty [] = true
is_empty (x ∷ xs) = false

unfoldable pub resolve_scheduling_status : Runner → Option String → String
resolve_scheduling_status runner project =
    if is_empty (base_blockers runner project)
    then resource_to_scheduling runner.resource_status
    else "UNSCHEDULABLE"

-- `_NEW_EXECUTION_SCHEDULING` and `_NEW_EXECUTION_RESOURCES`
abbrev pub new_execution_scheduling : String → Bool
new_execution_scheduling s = str_eq s "IDLE" || str_eq s "PARTIALLY_OCCUPIED"

abbrev pub new_execution_resources : String → Bool
new_execution_resources s = str_eq s "AVAILABLE" || str_eq s "PARTIALLY_OCCUPIED"

unfoldable pub resource_blockers : Runner → List String
resource_blockers runner =
    (if new_execution_scheduling runner.scheduling_status
      then []
      else (concat "scheduling_status=" runner.scheduling_status ∷ []))
    ++ (if new_execution_resources runner.resource_status
        then []
        else (concat "resource_status=" runner.resource_status ∷ []))

-- `runner_accept_new_execution_blockers`
unfoldable pub accept_blockers : Runner → Option String → List String
unfolding resource_blockers
accept_blockers runner project =
    let base = base_blockers runner project in
    if is_empty base then resource_blockers runner else base

-- `runner_can_continue_bound_execution`
unfoldable pub can_continue : Runner → Option String → Bool
can_continue runner project = is_empty (base_blockers runner project)
