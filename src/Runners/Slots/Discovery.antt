-- ===== src/Runners/Slots/Discovery.antt =====
-- The discovery of slots: `ExecutionSlotService` of execution_slot_service.py. The services that it
-- asks, of auth_service.py, are the record `Authentication`.
pub mod Pages
pub mod Scope
use Prim.Native.String.{compare}
use text.Mathlib.Text.{is_le, is_eq, is_lt}
use ai_auto_test_platform.Prelude.{
  ℕ, ◌+◌, ◌-◌, ◌*◌, String, Option, none, some, List, [], ◌∷◌, Bool, true, false, not, ◌&&◌, ◌||◌,
  str_eq, if◌then◌else◌, concat, take, drop, length, select, Result, ok, err, ◌>>=◌, ◌>>◌,
  platform_error, Error,
}
use ai_auto_test_platform.Runners.Rows.{Runner, Capability, Slot, Project, Lease}
use ai_auto_test_platform.Runners.Readiness.{accept_blockers, is_empty, is_text, is_some}
use ai_auto_test_platform.Runners.Slots.{Tables, first, is_formal_capability, capability_ready}

pub record SlotResource : Type 0 where
  pub execution_slot_id : String
  pub project_id : String
  pub runner_id : String
  pub slot_no : String
  pub display_name : Option String
  pub lifecycle_status : String
  pub availability_status : String
  pub active_lease_owner : Option String
  pub row_version : ℕ
  pub created_at : ℕ
  pub updated_at : ℕ

-- `authenticate_access_in_transaction` and `require_project_permissions_in_transaction`
pub record Authentication : Type 1 where
  pub Actor : Type 0
  -- `actor.user.user_id`
  pub user_id : Actor → String
  pub authenticate : String → String → Result Actor
  pub require_permissions : Actor → String → List String → String → Result (Unit {0})
  -- `authorized_project_ids_in_transaction`, where none is every project
  pub authorized_project_ids : Actor → String → Option (List String)

abbrev pub not_found : Error
not_found =
    platform_error 404 "EXECUTION_SLOT_NOT_FOUND"
      "The requested execution slot is unavailable in the authorized Project scope."

abbrev pub system_managed : Error
system_managed =
    platform_error 409 "EXECUTION_SLOT_SYSTEM_MANAGED"
      "Formal ExecutionSlot identities are reconciled from Runner readiness and FORMAL_EXECUTION capability evidence; external create/update is forbidden."

abbrev pub lease_identity : String → String → String
lease_identity runner_id slot_id = concat runner_id (concat ":FORMAL_EXECUTION_SLOT:" slot_id)

abbrev pub is_active_lease : String → String → String → Lease → Bool
is_active_lease project_id runner_id slot_id lease =
    str_eq lease.project_id project_id
    && (str_eq lease.resource_type "RUNNER"
        && (str_eq lease.resource_identity (lease_identity runner_id slot_id)
            && str_eq lease.status "ACTIVE"))

abbrev pub runner_ready : Option Runner → Project → Bool
runner_ready none project = false
runner_ready (some runner) project =
    is_empty (accept_blockers runner (some project.lifecycle_status))

unfoldable pub currently_ready : Slot → Option Runner → Option Capability → Project → Bool
currently_ready slot runner capability project =
    str_eq slot.lifecycle_status "ACTIVE"
    && (capability_ready capability && runner_ready runner project)

unfoldable pub availability : Bool → Option Lease → String
availability ready lease =
    if not ready then "UNAVAILABLE" else if is_some lease then "OCCUPIED" else "AVAILABLE"

abbrev pub lease_owner : Option Lease → Option String
lease_owner none = none
lease_owner (some lease) = some lease.owner_id

abbrev pub runner_of : String → List Runner → Option Runner
runner_of id runners = first (λ (r : Runner). str_eq r.runner_id id) runners

abbrev pub lease_of : String → String → String → List Lease → Option Lease
lease_of project_id runner_id slot_id leases =
    first (is_active_lease project_id runner_id slot_id) leases

unfoldable pub resource_of :
    Tables → Project → Slot → Option String → Option String → Option String → Result SlotResource
resource_of db project slot (some project_id) (some runner_id) (some slot_no) =
    let lease = lease_of project_id runner_id slot.execution_slot_id db.leases in
    ok record {
      execution_slot_id = slot.execution_slot_id;
      project_id = project_id;
      runner_id = runner_id;
      slot_no = slot_no;
      display_name = slot.display_name;
      lifecycle_status = slot.lifecycle_status;
      availability_status =
          availability
            (currently_ready slot (runner_of runner_id db.runners)
              (first (is_formal_capability runner_id) db.capabilities) project)
            lease;
      active_lease_owner = lease_owner lease;
      row_version = slot.row_version;
      created_at = slot.created_at;
      updated_at = slot.updated_at;
    }
resource_of db project slot _ _ _ = err not_found

-- `_resource`
unfoldable pub resource : Tables → Project → Slot → Result SlotResource
unfolding resource_of
resource db project slot = resource_of db project slot slot.project_id slot.runner_id slot.slot_no

unfoldable pub resources : Tables → Project → List Slot → Result (List SlotResource)
resources db project [] = ok []
resources db project (s ∷ slots) =
    let rest = resources db project slots in
    resource db project s >>= λ r. rest >>= λ rs. ok (r ∷ rs)

-- `ORDER BY runner_id, slot_no`, which are not NULL here
abbrev pub text_of : Option String → String
text_of none = ""
text_of (some t) = t

abbrev pub before : Slot → Slot → Bool
before a b =
    is_lt (compare (text_of a.runner_id) (text_of b.runner_id))
    || (is_eq (compare (text_of a.runner_id) (text_of b.runner_id))
        && is_le (compare (text_of a.slot_no) (text_of b.slot_no)))

unfoldable pub insert_slot : Slot → List Slot → List Slot
insert_slot s [] = s ∷ []
insert_slot s (t ∷ ts) = let rest = insert_slot s ts in if before s t then s ∷ t ∷ ts else t ∷ rest

unfoldable pub order_slots : List Slot → List Slot
order_slots [] = []
order_slots (s ∷ ss) = insert_slot s (order_slots ss)

abbrev pub asked : Option String → Option String → Bool
asked none value = true
asked (some want) value = is_text value want

abbrev pub in_query : String → Option String → Option String → Slot → Bool
in_query project_id runner_id lifecycle_status slot =
    is_text slot.project_id project_id
    && (is_some slot.runner_id
        && (is_some slot.slot_no
            && (asked runner_id slot.runner_id
                && asked lifecycle_status (some slot.lifecycle_status))))

abbrev pub found_project : Option Project → Result Project
found_project none = err not_found
found_project (some project) = ok project

abbrev pub project_of : String → List Project → Option Project
project_of id projects = first (λ (p : Project). str_eq p.project_id id) projects

-- `resources[start : start + page_size]`; the router admits pages from 1 on.
unfoldable pub page_of : ℕ → ℕ → List SlotResource → List SlotResource
page_of page page_size items = take page_size (drop ((page - 1) * page_size) items)

abbrev pub kept : Bool → List SlotResource → List SlotResource
kept available_only items =
    if available_only
    then select (λ (r : SlotResource). str_eq r.availability_status "AVAILABLE") items
    else items

module _ (authentication : Authentication) where
  -- `list_slots` up to the paging
  unfoldable pub found_slots :
      String → String → Option String → Option String → Bool → Tables → Result (List SlotResource)
  found_slots token project_id runner_id lifecycle_status available_only db =
      authentication.authenticate token "list_execution_slot" >>= λ actor.
      authentication.require_permissions actor "list_execution_slot" ("PROJECT_VIEW" ∷ [])
        project_id
      >>= λ _. found_project (project_of project_id db.projects) >>= λ project.
          resources db project
            (order_slots (select (in_query project_id runner_id lifecycle_status) db.slots))
          >>= λ items. ok (kept available_only items)

  unfoldable pub list_slots :
      String
      → String
      → Option String
      → Option String
      → Bool
      → ℕ
      → ℕ
      → Tables
      → Result (List SlotResource × ℕ)
  list_slots token project_id runner_id lifecycle_status available_only page page_size db =
      found_slots token project_id runner_id lifecycle_status available_only db >>= λ found.
      ok (page_of page page_size found, length found)

  -- The slot that `db.get` finds, if its three columns are set.
  unfoldable pub get_found :
      String → Tables → authentication.Actor → Option Slot → Result SlotResource
  get_found token db actor none = err not_found
  get_found token db actor (some slot) =
      resource_columns slot.project_id slot.runner_id slot.slot_no
    where
      resource_columns : Option String → Option String → Option String → Result SlotResource
      resource_columns (some project_id) (some runner_id) (some slot_no) =
          authentication.require_permissions actor "get_execution_slot" ("PROJECT_VIEW" ∷ [])
            project_id
          >>= λ _. found_project (project_of project_id db.projects) >>= λ project.
              resource db project slot
      resource_columns _ _ _ = err not_found

  unfoldable pub get_slot : String → String → Tables → Result SlotResource
  get_slot token slot_id db = authentication.authenticate token "get_execution_slot" >>= λ actor.
      get_found token db actor (first (λ (s : Slot). str_eq s.execution_slot_id slot_id) db.slots)

  unfoldable pub reject_external_mutation : String → String → Result SlotResource
  reject_external_mutation token operation =
      authentication.authenticate token operation >>= λ _. err system_managed
