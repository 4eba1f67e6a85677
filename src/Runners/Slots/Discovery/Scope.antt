-- ===== src/Runners/Slots/Discovery/Scope.antt =====
-- Which slots a listing contains.
use ai_auto_test_platform.Prelude.{
  ◌≡◌, String, Option, none, some, List, [], ◌∷◌, Bool, true, false, false≢true, eq_iff, arith,
  select, ok, All, All-mono, All-and, select-passes, select-All, Ensures, Ensures-bind,
  Ensures-bind_eq,
}
use ai_auto_test_platform.Runners.Rows.{Slot, Project}
use ai_auto_test_platform.Runners.Readiness.{is_text}
use ai_auto_test_platform.Runners.Slots.{Tables}
use ai_auto_test_platform.Runners.Slots.Discovery.{
  SlotResource, Authentication, resource_of, resource, resources, insert_slot, order_slots,
  in_query, kept, found_project, project_of, found_slots,
}

module _ (P : Slot → Type 0) where
  insert_slot-All : (s : Slot) (slots : List Slot) → P s → All P slots → All P (insert_slot s slots)
  unfolding insert_slot
  insert_slot-All s [] p ps = (p, tt)
  insert_slot-All s (t ∷ slots) p ps = ground (arith, insert_slot-All s slots)

  order_slots-All : (slots : List Slot) → All P slots → All P (order_slots slots)
  unfolding order_slots
  order_slots-All [] h = tt
  order_slots-All (s ∷ slots) h =
      insert_slot-All s (order_slots slots) h.0 (order_slots-All slots h.1)

module _ (db : Tables) (project : Project) (project_id : String) where
  resource_of-project :
      (slot : Slot) (p u n : Option String)
      → is_text p project_id ≡ true
      → Ensures (λ r. r.project_id ≡ project_id) (resource_of db project slot p u n)
  unfolding resource_of
  resource_of-project slot (some p) (some u) (some n) h = (eq_iff p project_id).0 h
  resource_of-project slot none u n h = tt
  resource_of-project slot (some p) none n h = tt
  resource_of-project slot (some p) (some u) none h = tt

  resources-project :
      (slots : List Slot)
      → All (λ s. is_text s.project_id project_id ≡ true) slots
      → Ensures (All (λ r. r.project_id ≡ project_id)) (resources db project slots)
  unfolding resources resource
  resources-project [] h = tt
  resources-project (s ∷ slots) h =
      Ensures-bind (λ r. r.project_id ≡ project_id) _ (resource db project s) _
        (resource_of-project s s.project_id s.runner_id s.slot_no h.0)
        λ r same.
          Ensures-bind (All (λ r. r.project_id ≡ project_id)) _ (resources db project slots) _
            (resources-project slots h.1) λ rs rest. (same, rest)

-- What a listed slot is.
pub record Listed (project_id : String) (available_only : Bool) (r : SlotResource) : Type 0 where
  pub in_project : r.project_id ≡ project_id
  pub available : available_only ≡ true → r.availability_status ≡ "AVAILABLE"

kept-Listed :
    (project_id : String) (available_only : Bool) (items : List SlotResource)
    → All (λ r. r.project_id ≡ project_id) items
    → All (Listed project_id available_only) (kept available_only items)
kept-Listed project_id true items h =
    All-mono _ _ (kept true items)
      (λ r both. record {
        in_project = both.0;
        available = λ _. (eq_iff r.availability_status "AVAILABLE").0 both.1;
      })
      (All-and _ _ (kept true items) (select-All _ _ items h) (select-passes _ items))
kept-Listed project_id false items h =
    All-mono _ _ items (λ r p. record { in_project = p; available = λ no. absurd (false≢true no) })
      h

-- The token's actor was authenticated, and may view the project.
pub record Authorized (authentication : Authentication) (token project_id : String) : Type 0 where
  pub actor : authentication.Actor
  pub authenticated : authentication.authenticate token "list_execution_slot" ≡ ok actor
  pub permitted :
      authentication.require_permissions actor "list_execution_slot"
        ("PROJECT_VIEW" ∷ [])
        project_id
      ≡ ok tt

module _ (authentication : Authentication) (token project_id : String)
    (runner_id lifecycle_status : Option String) (available_only : Bool) (db : Tables) where
  query-project :
      All
        (λ s. is_text s.project_id project_id ≡ true)
        (order_slots (select (in_query project_id runner_id lifecycle_status) db.slots))
  query-project = order_slots-All _ _ (
      All-mono _ _ (select (in_query project_id runner_id lifecycle_status) db.slots)
        (λ s h. ground (arith, h))
        (select-passes (in_query project_id runner_id lifecycle_status) db.slots))

  abbrev Answer : List SlotResource → Type 0
  Answer items =
      Authorized authentication token project_id × All (Listed project_id available_only) items

  -- A listing is given only to an actor that the token authenticates and that has the permission to
  -- view the requested project. It holds slots of that project and of no other, and, if only available
  -- slots are asked for, none that is unavailable or occupied.
  pub found_slots-Listed :
      Ensures
        (λ items.
          Authorized authentication token project_id × All (Listed project_id available_only) items)
        (found_slots authentication token project_id runner_id lifecycle_status available_only db)
  unfolding found_slots
  found_slots-Listed =
      Ensures-bind_eq Answer (authentication.authenticate token "list_execution_slot") _ λ actor e.
        Ensures-bind_eq Answer
          (authentication.require_permissions actor "list_execution_slot" ("PROJECT_VIEW" ∷ [])
            project_id)
          _
          λ u granted.
            Ensures-bind_eq Answer (found_project (project_of project_id db.projects)) _
              λ project _.
                Ensures-bind (All (λ r. r.project_id ≡ project_id)) Answer
                  (resources db project (
                    order_slots (select (in_query project_id runner_id lifecycle_status) db.slots)))
                  _ (resources-project db project project_id _ query-project)
                  λ items h. (
                    record { actor = actor; authenticated = e; permitted = granted },
                    kept-Listed project_id available_only items h,
                  )
