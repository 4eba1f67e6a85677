-- ===== src/Runners/Slots/Discovery/Pages.antt =====
-- What the discovery of slots reports: availability, scope and pages.
use ai_auto_test_platform.Prelude.{
  ℕ, zero, suc, ◌+◌, ◌-◌, ◌*◌, ◌≤◌, ◌≡◌, ◌↔◌, refl, ap, sym, ◌∙◌, String, Option, none, some, List,
  [], ◌∷◌, ◌++◌, Bool, true, false, str_eq, eq_iff, arith, take, drop, length, ok, Ensures,
}
use ai_auto_test_platform.Runners.Rows.{Runner, Slot, Project, Lease}
use ai_auto_test_platform.Runners.Readiness.{accept_blockers, is_empty}
use ai_auto_test_platform.Runners.Readiness.Trust.{IsTrusted, HasCapacity, accept_blockers_iff}
use ai_auto_test_platform.Runners.Slots.{Tables, first, is_formal_capability, capability_ready}
use ai_auto_test_platform.Runners.Slots.Discovery.{
  SlotResource, Authentication, currently_ready, availability, runner_ready, runner_of, lease_of,
  resource_of, resource, page_of, found_slots, list_slots,
}

-- Why a slot can take an execution.
pub record IsAvailable (db : Tables) (project : Project) (slot : Slot)
    (project_id runner_id : String) : Type 0 where
  pub active : slot.lifecycle_status ≡ "ACTIVE"
  pub capability : capability_ready (first (is_formal_capability runner_id) db.capabilities) ≡ true
  pub runner : Runner
  pub found : runner_of runner_id db.runners ≡ some runner
  pub trusted : IsTrusted runner (some project.lifecycle_status)
  pub capacity : HasCapacity runner
  pub free : lease_of project_id runner_id slot.execution_slot_id db.leases ≡ none

is_empty-eq : {A : Type 0} → (l : List A) → is_empty l ≡ true → l ≡ []
is_empty-eq [] h = refl
is_empty-eq (x ∷ l) h = cc

eq-is_empty : {A : Type 0} → (l : List A) → l ≡ [] → is_empty l ≡ true
eq-is_empty l h = rw h refl

availability-cases :
    (ready : Bool) (lease : Option Lease)
    → (availability ready lease ≡ "AVAILABLE") ↔ ((ready ≡ true) × (lease ≡ none))
unfolding availability
availability-cases false lease = ((λ h. cc), λ h. cc (h.0))
availability-cases true none = ((λ h. (refl, refl)), λ h. refl)
availability-cases true (some lease) = ((λ h. cc), λ h. cc (h.1))

runner_ready-found :
    (o : Option Runner) (project : Project)
    → runner_ready o project ≡ true
    → (runner : Runner) × ((o ≡ some runner)
        × (IsTrusted runner (some project.lifecycle_status) × HasCapacity runner))
runner_ready-found none project h = cc
runner_ready-found (some r) project h =
    (r, (refl, (accept_blockers_iff r (some project.lifecycle_status)).0 (is_empty-eq _ h)))

found-runner_ready :
    (o : Option Runner) (project : Project) (runner : Runner)
    → o ≡ some runner
    → accept_blockers runner (some project.lifecycle_status) ≡ []
    → runner_ready o project ≡ true
found-runner_ready o project runner e h = rw e (eq-is_empty _ h)

module _ (db : Tables) (project : Project) (slot : Slot) where
  ready-IsAvailable :
      (project_id runner_id : String)
      → let ready =
          currently_ready slot
            (runner_of runner_id db.runners)
            (first (is_formal_capability runner_id) db.capabilities)
            project in
        let lease = lease_of project_id runner_id slot.execution_slot_id db.leases in
        ((ready ≡ true) × (lease ≡ none)) ↔ IsAvailable db project slot project_id runner_id
  unfolding currently_ready
  ready-IsAvailable project_id runner_id =
      let capability = first (is_formal_capability runner_id) db.capabilities in
      let runner = runner_of runner_id db.runners in
      (
        λ h.
            let a : str_eq slot.lifecycle_status "ACTIVE" ≡ true = ground (arith, h.0) in
            let c : capability_ready capability ≡ true = ground (arith, h.0) in
            let u : runner_ready runner project ≡ true = ground (arith, h.0) in
            let r = runner_ready-found runner project u in
            record {
              active = (eq_iff slot.lifecycle_status "ACTIVE").0 a;
              capability = c;
              runner = r.0;
              found = r.1.0;
              trusted = r.1.1.0;
              capacity = r.1.1.1;
              free = h.1;
            },
        λ h.
            let u = found-runner_ready runner project h.runner h.found (
              (accept_blockers_iff h.runner (some project.lifecycle_status)).1
                (h.trusted, h.capacity)) in
            (rw (h.active, h.capability, u) refl, h.free),
      )

  resource_of-IsAvailable :
      (p u n : Option String)
      → Ensures
          (λ r.
            (r.availability_status ≡ "AVAILABLE")
            ↔ IsAvailable db project slot r.project_id r.runner_id)
          (resource_of db project slot p u n)
  unfolding resource_of
  resource_of-IsAvailable (some p) (some u) (some n) =
      let a = availability-cases _ _ in
      let b = ready-IsAvailable p u in ((λ h. b.0 (a.0 h)), λ h. a.1 (b.1 h))
  resource_of-IsAvailable none u n = tt
  resource_of-IsAvailable (some p) none n = tt
  resource_of-IsAvailable (some p) (some u) none = tt

  -- A slot is reported AVAILABLE exactly when it is ACTIVE, the runner's FORMAL_EXECUTION capability
  -- is configured, valid and active, the runner exists, is trusted and has capacity, and no active
  -- lease holds the slot.
  pub resource-IsAvailable_iff :
      Ensures
        (λ r.
          (r.availability_status ≡ "AVAILABLE")
          ↔ IsAvailable db project slot r.project_id r.runner_id)
        (resource db project slot)
  unfolding resource
  resource-IsAvailable_iff = resource_of-IsAvailable slot.project_id slot.runner_id slot.slot_no

module _ {A : Type 0} where
  take-nil : (n : ℕ) → take {A = A} n [] ≡ []
  take-nil zero = refl
  take-nil (suc n) = refl

  take-append-drop : (n m : ℕ) (xs : List A) → take n xs ++ take m (drop n xs) ≡ take (n + m) xs
  take-append-drop zero m xs = let same : m ≡ 0 + m = omega arith in ap (λ k. take k xs) same
  take-append-drop (suc n) m [] = take-nil m ∙ sym (take-nil (suc n + m))
  take-append-drop (suc n) m (x ∷ xs) =
      let next : suc (n + m) ≡ suc n + m = omega arith in
      ap (λ r. x ∷ r) (take-append-drop n m xs) ∙ ap (λ k. take k (x ∷ xs)) next

  take-all : (n : ℕ) (xs : List A) → length xs ≤ n → take n xs ≡ xs
  take-all zero [] h = refl
  take-all zero (x ∷ xs) h = absurd (omega (arith, h))
  take-all (suc n) [] h = refl
  take-all (suc n) (x ∷ xs) h = ap (λ r. x ∷ r) (take-all n xs (omega (arith, h)))

-- The pages from the first on, one after the other.
pub pages : (ℕ → List SlotResource) → ℕ → List SlotResource
pages page zero = []
pages page (suc n) = pages page n ++ page (suc n)

pages-take :
    (items : List SlotResource) (size n : ℕ)
    → pages (λ k. page_of k size items) n ≡ take (n * size) items
unfolding pages page_of
pages-take items size zero =
    let none_yet : 0 ≡ 0 * size = omega arith in ap (λ k. take k items) none_yet
pages-take items size (suc n) =
    let start : (suc n - 1) * size ≡ n * size = ap (λ k. k * size) (omega arith) in
    let next : n * size + size ≡ suc n * size = grind arith in
    ap (λ r. r ++ page_of (suc n) size items) (pages-take items size n)
    ∙ ap (λ k. take (n * size) items ++ take size (drop k items)) start
    ∙ take-append-drop (n * size) size items
    ∙ ap (λ k. take k items) next

-- Paging loses no slot and repeats none: with a page size whose first `n` pages hold the total, the
-- pages that `list_slots` returns, one after the other, are the slots that it found, for any caller,
-- filter and page size for which the search does not fail; and every page reports the same total.
pub list_slots-pages :
    (authentication : Authentication) (token project_id : String)
    (runner_id lifecycle_status : Option String) (available_only : Bool) (db : Tables) (size n : ℕ)
    (found : List SlotResource)
    → found_slots authentication token project_id runner_id lifecycle_status available_only db
      ≡ ok found
    → length found ≤ n * size
    → (page : ℕ → List SlotResource) × (((k : ℕ)
          → list_slots authentication token project_id runner_id lifecycle_status available_only k
              size db
            ≡ ok (page k, length found))
        × (pages page n ≡ found))
unfolding list_slots
list_slots-pages authentication token project_id runner_id lifecycle_status available_only db size n
      found e le =
    (
      (λ k. page_of k size found),
      ((λ k. rw e refl), pages-take found size n ∙ take-all (n * size) found le),
    )
