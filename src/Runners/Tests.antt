-- ===== src/Runners/Tests.antt =====
-- The theorems on runners and slots at a concrete runner.
use ai_auto_test_platform.Runners.Versions.{compare_parts}
use ai_auto_test_platform.Runners.Versions.{numeric_version}
use ai_auto_test_platform.Prelude.{
  ℕ, ◌≡◌, ◌↔◌, ◌⊎◌, refl, String, none, some, List, [], ◌∷◌, true, ok, Returns, Returns-Ensures,
  All, arith, ◌-◌, ◌==◌, ◌&&◌, leb, if◌then◌else◌, Ensures,
}
use Prim.Native.Nat.{Ordering}
use ai_auto_test_platform.Runtime.{Runtime}
use ai_auto_test_platform.Runners.Rows.{Runner, Capability, Slot, Project}
use ai_auto_test_platform.Runners.Readiness.{
  base_blockers, accept_blockers, resolve_scheduling_status, resource_to_scheduling, failing,
  resource_blockers,
}
use ai_auto_test_platform.Runners.Readiness.Trust.{
  IsTrusted, HasCapacity, base_blockers_iff, accept_blockers_iff, scheduling_agrees,
}
use ai_auto_test_platform.Runners.Versions.{
  Unicode, codes, compare_numeric_versions, resolve_version_compatibility, compatible,
  supported_agent_version, supported_playwright_version,
}
use ai_auto_test_platform.Runners.Versions.Order.{IsSupported, resolve_compatible_iff}
use ai_auto_test_platform.Runners.Versions.Components.{
  components, compare_numeric_versions-components,
}
use ai_auto_test_platform.Runners.Slots.{Tables, reconcile, first}
use ai_auto_test_platform.Runners.Slots.Reconcile.{
  Left, Again, eligible_in, reconcile-Left, reconcile_twice,
}
use ai_auto_test_platform.Runners.Slots.Discovery.{
  SlotResource, Authentication, resource, resource_of, resources, insert_slot, order_slots,
  currently_ready, availability, found_slots, list_slots,
}
use ai_auto_test_platform.Runners.Slots.Discovery.Pages.{
  IsAvailable, pages, resource-IsAvailable_iff, list_slots-pages,
}
use ai_auto_test_platform.Runners.Slots.Discovery.Scope.{Authorized, Listed, found_slots-Listed}

abbrev runtime : Runtime
runtime = record {
  ulid = λ n. "01";
  refresh_token = λ n. "token";
  clock = λ n. n;
  sha256 = λ s. s;
  isoformat = λ n. "2026-07-01T00:00:00";
}

-- White space and digits of ASCII.
abbrev unicode : Unicode
unicode = record {
  is_space = λ c. c == 32;
  digit = λ c. if leb 48 c && leb c 57 then some (c - 48) else none;
}

abbrev runner : Runner
runner = record {
  runner_id = "runner";
  project_id = "project";
  runner_code = "r1";
  health_status = "HEALTHY";
  scheduling_status = "IDLE";
  resource_status = "AVAILABLE";
  version_compatibility = "COMPATIBLE";
  last_heartbeat_at = some 1;
  registered_at = 0;
  registration_status = "REGISTERED";
  connection_status = "ONLINE";
  enable_status = "ENABLED";
  project_binding_status = "BOUND";
  lifecycle_status = "ACTIVE";
  display_name = none;
  row_version = 0;
  created_at = 0;
  updated_at = 0;
  created_by = none;
  updated_by = none;
}

abbrev formal_capability : Capability
formal_capability = record {
  runner_capability_id = "capability";
  project_id = "project";
  runner_id = "runner";
  capability_code = "FORMAL_EXECUTION";
  capability_type = "EXECUTION";
  availability_status = "CONFIGURED";
  validation_status = "VALID";
  observed_version = none;
  reported_at = 0;
  lifecycle_status = "ACTIVE";
  display_name = none;
  row_version = 0;
  created_at = 0;
  updated_at = 0;
  created_by = none;
  updated_by = none;
}

abbrev project : Project
project = record { project_id = "project"; lifecycle_status = "ACTIVE" }

abbrev slot : Slot
slot = record {
  execution_slot_id = "slot";
  project_id = some "project";
  runner_id = some "runner";
  slot_no = some "0";
  lifecycle_status = "ACTIVE";
  display_name = none;
  row_version = 0;
  created_at = 0;
  updated_at = 0;
  created_by = none;
  updated_by = none;
  extension_json = none;
}

abbrev tables : Tables
tables = record {
  slots = slot ∷ [];
  capabilities = formal_capability ∷ [];
  leases = [];
  runners = runner ∷ [];
  projects = project ∷ [];
  drawn = 0;
  reads = 0;
}

abbrev no_slots : Tables
no_slots = record tables { slots = [] }

abbrev open_door : Authentication
open_door = record {
  Actor = String;
  user_id = λ actor. actor;
  authenticate = λ token operation. ok token;
  require_permissions = λ actor operation permissions project_id. ok tt;
  authorized_project_ids = λ actor permission. none;
}

base_blockers_iff_example :
    (base_blockers runner (some "ACTIVE") ≡ []) ↔ IsTrusted runner (some "ACTIVE")
base_blockers_iff_example = base_blockers_iff runner (some "ACTIVE")

accept_blockers_iff_example :
    (accept_blockers runner (some "ACTIVE") ≡ [])
    ↔ (IsTrusted runner (some "ACTIVE") × HasCapacity runner)
accept_blockers_iff_example = accept_blockers_iff runner (some "ACTIVE")

scheduled : "IDLE" ≡ resolve_scheduling_status runner (some "ACTIVE")
unfolding resolve_scheduling_status base_blockers failing resource_to_scheduling
scheduled = refl

scheduling_agrees_example :
    (accept_blockers runner (some "ACTIVE") ≡ [])
    ↔ ((runner.scheduling_status ≡ "IDLE") ⊎ (runner.scheduling_status ≡ "PARTIALLY_OCCUPIED"))
scheduling_agrees_example = scheduling_agrees runner (some "ACTIVE") scheduled

compare_numeric_versions-components_example :
    compare_numeric_versions ⦃u = unicode⦄ (codes " 1.2") (codes "1.2.0") ≡ some Ordering.eq
unfolding components numeric_version
compare_numeric_versions-components_example =
    compare_numeric_versions-components ⦃u = unicode⦄ (codes " 1.2") (codes "1.2.0")

abbrev version_capability : String → String → Capability
version_capability code version = record formal_capability {
  capability_code = code;
  observed_version = some version;
}

abbrev versions : List Capability
versions =
    version_capability "AGENT_VERSION" "9.9"
    ∷ version_capability "AGENT_VERSION" " 0.1"
    ∷ version_capability "PLAYWRIGHT_VERSION" "1.62.0.0"
    ∷ []

versions-compatible : resolve_version_compatibility ⦃u = unicode⦄ versions ≡ compatible
unfolding resolve_version_compatibility compare_numeric_versions numeric_version compare_parts
versions-compatible = refl

resolve_compatible_iff_example :
    IsSupported ⦃u = unicode⦄ "AGENT_VERSION" supported_agent_version versions
    × IsSupported ⦃u = unicode⦄ "PLAYWRIGHT_VERSION" supported_playwright_version versions
resolve_compatible_iff_example =
    (resolve_compatible_iff ⦃u = unicode⦄ versions).0 versions-compatible

reconcile-Left_example :
    Left runner
      (eligible_in ⦃rt = runtime⦄ runner (some project) no_slots)
      no_slots
      (reconcile ⦃rt = runtime⦄ runner (some project) no_slots)
reconcile-Left_example = reconcile-Left ⦃rt = runtime⦄ runner (some project) no_slots

reconcile_twice_example :
    Again ⦃rt = runtime⦄ runner
      (some project)
      (reconcile ⦃rt = runtime⦄ runner (some project) no_slots)
reconcile_twice_example = reconcile_twice ⦃rt = runtime⦄ runner (some project) no_slots

resource-IsAvailable_iff_example :
    Ensures
      (λ r.
        (r.availability_status ≡ "AVAILABLE")
        ↔ IsAvailable tables project slot r.project_id r.runner_id)
      (resource tables project slot)
resource-IsAvailable_iff_example = resource-IsAvailable_iff tables project slot

found_slots-returns :
    Returns (λ _. Unit {0}) (found_slots open_door "token" "project" none none true tables)
unfolding found_slots first resources order_slots insert_slot resource
found_slots-returns = tt

found_slots-Listed_example :
    Returns
      (λ items. Authorized open_door "token" "project" × All (Listed "project" true) items)
      (found_slots open_door "token" "project" none none true tables)
found_slots-Listed_example =
    Returns-Ensures
      (λ items. Authorized open_door "token" "project" × All (Listed "project" true) items)
      (found_slots open_door "token" "project" none none true tables) found_slots-returns
      (found_slots-Listed open_door "token" "project" none none true tables)

abbrev listed : SlotResource
listed = record {
  execution_slot_id = "slot";
  project_id = "project";
  runner_id = "runner";
  slot_no = "0";
  display_name = none;
  lifecycle_status = "ACTIVE";
  availability_status = "AVAILABLE";
  active_lease_owner = none;
  row_version = 0;
  created_at = 0;
  updated_at = 0;
}

one_found : found_slots open_door "token" "project" none none true tables ≡ ok (listed ∷ [])
unfolding found_slots resources resource resource_of order_slots insert_slot first currently_ready
    availability accept_blockers base_blockers failing resource_blockers
one_found = refl

list_slots-pages_example :
    (page : ℕ → List SlotResource) × (((k : ℕ)
        → list_slots open_door "token" "project" none none true k 3 tables ≡ ok (page k, 1))
      × (pages page 1 ≡ (listed ∷ [])))
list_slots-pages_example =
    list_slots-pages open_door "token" "project" none none true tables 3 1 (listed ∷ []) one_found
      (omega arith)
