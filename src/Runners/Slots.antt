-- ===== src/Runners/Slots.antt =====
-- Formal execution slots: `reconcile_formal_execution_slot` of runner_resource_reconciler.py.
pub mod Reconcile
pub mod Discovery
use ai_auto_test_platform.Prelude.{
  ℕ, ◌+◌, ◌-◌, ◌*◌, String, Option, none, some, List, [], ◌∷◌, Bool, true, false, not, ◌&&◌, ◌||◌,
  str_eq, if◌then◌else◌, concat, take, drop, length, select, Result, ok, err, platform_error, Error,
}
use ai_auto_test_platform.Runtime.{Runtime}
use ai_auto_test_platform.Runners.Rows.{Runner, Capability, Slot, SlotExtension, Project, Lease}
use ai_auto_test_platform.Runners.Readiness.{accept_blockers, is_empty, is_text, is_some}

-- The tables that the reconciliation and the discovery read, with the counts of values drawn.
pub record Tables : Type 0 where
  pub slots : List Slot
  pub capabilities : List Capability
  pub leases : List Lease
  pub runners : List Runner
  pub projects : List Project
  pub drawn : ℕ
  pub reads : ℕ

abbrev pub slot_name : String
slot_name = "正式执行槽位 1"

-- `scalar(select(...))`: the first row that the query returns.
unfoldable pub first {ℓ} : {A : Type ℓ} → (A → Bool) → List A → Option A
first p [] = none
first p (x ∷ xs) = if p x then some x else first p xs

-- Equal texts, where None equals only None.
abbrev pub same_text : Option String → Option String → Bool
same_text none none = true
same_text none (some t) = false
same_text (some s) none = false
same_text (some s) (some t) = str_eq s t

abbrev pub is_formal_slot : String → Slot → Bool
is_formal_slot runner_id slot = is_text slot.runner_id runner_id && is_text slot.slot_no "0"

abbrev pub is_formal_capability : String → Capability → Bool
is_formal_capability runner_id c =
    str_eq c.runner_id runner_id && str_eq c.capability_code "FORMAL_EXECUTION"

abbrev pub capability_ready : Option Capability → Bool
capability_ready none = false
capability_ready (some c) =
    str_eq c.availability_status "CONFIGURED"
    && (str_eq c.validation_status "VALID" && str_eq c.lifecycle_status "ACTIVE")

abbrev pub project_active : Option Project → Bool
project_active none = false
project_active (some p) = str_eq p.lifecycle_status "ACTIVE"

unfoldable pub statically_eligible : Option Project → Runner → Option Capability → Bool
statically_eligible project runner capability =
    project_active project
    && (str_eq runner.lifecycle_status "ACTIVE"
        && (str_eq runner.registration_status "REGISTERED"
            && (str_eq runner.enable_status "ENABLED"
                && (str_eq runner.project_binding_status "BOUND"
                    && (str_eq runner.version_compatibility "COMPATIBLE"
                        && capability_ready capability)))))

-- The status that a slot comes to.
unfoldable pub target_status : Runner → Bool → String
target_status runner eligible =
    if str_eq runner.lifecycle_status "ARCHIVED"
    then "ARCHIVED"
    else if eligible
    then "ACTIVE"
    else "DISABLED"

abbrev pub needs_change : Slot → Runner → Bool → Bool
needs_change slot runner eligible =
    not (str_eq slot.lifecycle_status (target_status runner eligible))
    || (not (same_text slot.project_id (some runner.project_id))
        || not (same_text slot.display_name (some slot_name)))

-- The row after the three assignments, of which each writes what the row has if its test fails.
unfoldable pub reconciled : Slot → Runner → Bool → ℕ → Slot
reconciled slot runner eligible now =
    if needs_change slot runner eligible
    then record slot {
      lifecycle_status = target_status runner eligible;
      project_id = some runner.project_id;
      display_name = some slot_name;
      row_version = slot.row_version + 1;
      updated_at = now;
      updated_by = runner.updated_by;
    }
    else slot

unfoldable pub new_slot : Runner → String → ℕ → Slot
new_slot runner id now = record {
  execution_slot_id = id;
  project_id = some runner.project_id;
  runner_id = some runner.runner_id;
  slot_no = some "0";
  lifecycle_status = "ACTIVE";
  display_name = some slot_name;
  row_version = 0;
  created_at = now;
  updated_at = now;
  created_by = runner.updated_by;
  updated_by = runner.updated_by;
  extension_json = some (record { resource_code = "FORMAL_EXECUTION_SLOT"; capacity = 1 });
}

-- The first row of a query is changed in place.
unfoldable pub update_first {ℓ} : {A : Type ℓ} → (A → Bool) → (A → A) → List A → List A
update_first p change [] = []
update_first p change (x ∷ xs) = if p x then change x ∷ xs else x ∷ update_first p change xs

module _ ⦃rt : Runtime⦄ where
  unfoldable pub reconcile_found : Option Slot → Runner → Bool → Tables → Option Slot × Tables
  reconcile_found none runner eligible db =
      if eligible
      then (let slot = new_slot runner (rt.ulid db.drawn) (rt.clock db.reads) in
          (
            some slot,
            record db { slots = slot ∷ db.slots; drawn = db.drawn + 1; reads = db.reads + 1 },
          ))
      else (none, record db { reads = db.reads + 1 })
  reconcile_found (some slot) runner eligible db =
      let change = λ (s : Slot). reconciled s runner eligible (rt.clock db.reads) in
      (
        some (change slot),
        record db {
          slots = update_first (is_formal_slot runner.runner_id) change db.slots;
          reads = db.reads + 1;
        },
      )

  unfoldable pub reconcile : Runner → Option Project → Tables → Option Slot × Tables
  unfolding reconcile_found
  reconcile runner project db =
      reconcile_found (first (is_formal_slot runner.runner_id) db.slots) runner
        (statically_eligible project runner
          (first (is_formal_capability runner.runner_id) db.capabilities))
        db
