-- ===== src/Runners/Slots/Reconcile.antt =====
-- What a reconciliation leaves, and a second one right after it.
use ai_auto_test_platform.Prelude.{
  ℕ, ◌≡◌, refl, ap, String, Option, none, some, List, [], ◌∷◌, Bool, true, false, str_eq, eq_iff,
  eq_refl, arith, Bool-cases, inl, inr,
}
use ai_auto_test_platform.Runtime.{Runtime}
use ai_auto_test_platform.Runners.Rows.{Runner, Capability, Slot, Project}
use ai_auto_test_platform.Runners.Slots.{
  Tables, slot_name, first, same_text, is_formal_slot, is_formal_capability, statically_eligible,
  target_status, reconciled, new_slot, update_first, reconcile, reconcile_found,
}

module _ {ℓ} {A : Type ℓ} (p : A → Bool) (change : A → A) where
  first-update_first :
      (xs : List A) (x : A)
      → ((y : A) → p (change y) ≡ p y)
      → first p xs ≡ some x
      → first p (update_first p change xs) ≡ some (change x)
  unfolding first update_first
  first-update_first [] x same e = cc
  first-update_first (y ∷ xs) x same e = ground (arith, same y, first-update_first xs x same)

  update_first-same :
      (xs : List A) (x : A) → first p xs ≡ some x → change x ≡ x → update_first p change xs ≡ xs
  unfolding first update_first
  update_first-same [] x e same = refl
  update_first-same (y ∷ xs) x e same = ground (arith, update_first-same xs x, same)

-- What the slot of a runner is to be.
pub record IsReconciled (runner : Runner) (eligible : Bool) (slot : Slot) : Type 0 where
  pub status : str_eq slot.lifecycle_status (target_status runner eligible) ≡ true
  pub project : same_text slot.project_id (some runner.project_id) ≡ true
  pub name : same_text slot.display_name (some slot_name) ≡ true

reconciled-IsReconciled :
    (slot : Slot) (runner : Runner) (eligible : Bool) (now : ℕ)
    → IsReconciled runner eligible (reconciled slot runner eligible now)
unfolding reconciled
reconciled-IsReconciled slot runner eligible now =
    ground
      (arith, eq_refl (target_status runner eligible), eq_refl runner.project_id, eq_refl slot_name)

reconciled_again :
    (slot : Slot) (runner : Runner) (eligible : Bool) (now : ℕ)
    → IsReconciled runner eligible slot
    → reconciled slot runner eligible now ≡ slot
unfolding reconciled
reconciled_again slot runner eligible now h = rw (h.status, h.project, h.name) refl

reconciled-is_formal_slot :
    (id : String) (slot : Slot) (runner : Runner) (eligible : Bool) (now : ℕ)
    → is_formal_slot id (reconciled slot runner eligible now) ≡ is_formal_slot id slot
unfolding reconciled
reconciled-is_formal_slot id slot runner eligible now = ground (arith)

statically_eligible-active :
    (project : Option Project) (runner : Runner) (capability : Option Capability)
    → statically_eligible project runner capability ≡ true
    → runner.lifecycle_status ≡ "ACTIVE"
unfolding statically_eligible
statically_eligible-active project runner capability e =
    let same : str_eq runner.lifecycle_status "ACTIVE" ≡ true = ground (arith) in
    (eq_iff runner.lifecycle_status "ACTIVE").0 same

active-target_status :
    (runner : Runner) (eligible : Bool)
    → eligible ≡ true
    → runner.lifecycle_status ≡ "ACTIVE"
    → target_status runner eligible ≡ "ACTIVE"
unfolding target_status
active-target_status runner eligible can active = rw (can, active) refl

new_slot-is_formal_slot :
    (runner : Runner) (id : String) (now : ℕ)
    → is_formal_slot runner.runner_id (new_slot runner id now) ≡ true
unfolding new_slot
new_slot-is_formal_slot runner id now = rw (eq_refl runner.runner_id) refl

new_slot-IsReconciled :
    (runner : Runner) (eligible : Bool) (id : String) (now : ℕ)
    → target_status runner eligible ≡ "ACTIVE"
    → IsReconciled runner eligible (new_slot runner id now)
unfolding new_slot
new_slot-IsReconciled runner eligible id now e = record {
  status = rw e refl;
  project = eq_refl runner.project_id;
  name = eq_refl slot_name;
}

-- What a reconciliation of `runner` that returned `result` left in the table.
pub Left : Runner → Bool → Tables → Option Slot × Tables → Type 0
Left runner eligible before (none, after) =
    (after.slots ≡ before.slots)
    × ((first (is_formal_slot runner.runner_id) before.slots ≡ none) × (eligible ≡ false))
Left runner eligible before (some slot, after) =
    (first (is_formal_slot runner.runner_id) after.slots ≡ some slot)
    × IsReconciled runner eligible slot

module _ ⦃rt : Runtime⦄ (runner : Runner) (project : Option Project) where
  abbrev pub eligible_in : Tables → Bool
  eligible_in db =
      statically_eligible project runner
        (first (is_formal_capability runner.runner_id) db.capabilities)

  abbrev p : Slot → Bool
  p = is_formal_slot runner.runner_id

  found-Left :
      (found : Option Slot) (db : Tables)
      → first p db.slots ≡ found
      → Left runner (eligible_in db) db (reconcile_found found runner (eligible_in db) db)
  unfolding reconcile_found first Left
  found-Left none db e = elim (Bool-cases (eligible_in db)) [
    | inl can ↦
        let active : runner.lifecycle_status ≡ "ACTIVE" =
          statically_eligible-active project runner _ can in
        let made = new_slot runner (rt.ulid db.drawn) (rt.clock db.reads) in
        rw can (
          rw (new_slot-is_formal_slot runner (rt.ulid db.drawn) (rt.clock db.reads)) refl,
          new_slot-IsReconciled runner true _ _ (active-target_status runner true refl active),
        )
    | inr cannot ↦ rw cannot (refl, (e, refl))
  ]
  found-Left (some slot) db e = (
    first-update_first p _ db.slots slot
        (λ s.
          reconciled-is_formal_slot runner.runner_id s runner (eligible_in db) (rt.clock db.reads))
        e,
    reconciled-IsReconciled slot runner (eligible_in db) (rt.clock db.reads),
  )

  -- After a reconciliation of a runner, either the runner's first slot of number "0" is the one that
  -- was returned, and has the status, project and name that the runner's state demands, or nothing was
  -- returned, the runner had no such slot, is not eligible for one, and no slot changed.
  pub reconcile-Left : (db : Tables) → Left runner (eligible_in db) db (reconcile runner project db)
  unfolding reconcile
  reconcile-Left db = found-Left (first p db.slots) db refl

  stays_absent :
      (db : Tables)
      → first p db.slots ≡ none
      → eligible_in db ≡ false
      → ((reconcile runner project db).0 ≡ none)
        × ((reconcile runner project db).1.slots ≡ db.slots)
  unfolding reconcile reconcile_found
  stays_absent db e no_right = rw (e, no_right) (refl, refl)

  stays_found :
      (db : Tables) (slot : Slot)
      → first p db.slots ≡ some slot
      → IsReconciled runner (eligible_in db) slot
      → ((reconcile runner project db).0 ≡ some slot)
        × ((reconcile runner project db).1.slots ≡ db.slots)
  unfolding reconcile reconcile_found
  stays_found db slot e right =
      let same = reconciled_again slot runner (eligible_in db) (rt.clock db.reads) right in
      rw e (ap some same, update_first-same p _ db.slots slot e same)

  reconcile-capabilities :
      (db : Tables) → (reconcile runner project db).1.capabilities ≡ db.capabilities
  unfolding reconcile reconcile_found
  reconcile-capabilities db = ground (arith)

  -- The same slot is returned, and the slots stay.
  pub Again : Option Slot × Tables → Type 0
  Again (slot, after) =
      ((reconcile runner project after).0 ≡ slot)
      × ((reconcile runner project after).1.slots ≡ after.slots)

  Left-Again :
      (out : Option Slot × Tables) (db : Tables)
      → Left runner (eligible_in db) db out
      → out.1.capabilities ≡ db.capabilities
      → Again out
  unfolding Left Again
  Left-Again (none, after) db (same, (absent, no_right)) kept =
      stays_absent after (rw same absent) (rw kept no_right)
  Left-Again (some slot, after) db (e, right) kept = stays_found after slot e (rw kept right)

  -- Reconciling again at once, with no other change in between, returns the slot that the first
  -- reconciliation returned and leaves every slot as it is: no second slot, no new row version.
  pub reconcile_twice : (db : Tables) → Again (reconcile runner project db)
  reconcile_twice db =
      Left-Again (reconcile runner project db) db (reconcile-Left db) (reconcile-capabilities db)
