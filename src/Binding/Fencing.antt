-- ===== src/Binding/Fencing.antt =====
-- The fencing of leases: what the generations and the active leases of one resource come to.
use ai_auto_test_platform.Prelude.{
  ℕ, ◌+◌, ◌≤◌, ◌<◌, ◌≡◌, refl, subst, String, Option, none, some, List, All, All-and, All-mono,
  Bool, true, false, ◌&&◌, str_eq, eq_iff, eq_refl, arith, Bool-cases, inl, inr,
}
use ai_auto_test_platform.Runtime.{Runtime}
use ai_auto_test_platform.Runners.Readiness.{is_some}
use ai_auto_test_platform.Runners.Rows.{Lease}
use ai_auto_test_platform.Runners.Slots.{first, update_first}
use ai_auto_test_platform.Binding.Rows.{Generation}
use ai_auto_test_platform.Binding.Store.{Store}
use ai_auto_test_platform.Binding.Lookup.{
  Pairwise, Pairwise-replaced, All-replaced, first-updated, first-updated_other, none-All,
}
use ai_auto_test_platform.Binding.Leases.{
  generation_of, lease_of, is_active, held, counted_up, next_generation, new_lease, Acquisition,
  acquire_hashed,
}

-- The counter of a resource, 0 without a row.
abbrev pub current : Option Generation → ℕ
current none = 0
current (some g) = g.current_generation

unfoldable pub counter : String → String → List Generation → ℕ
counter resource_type hash generations =
    current (first (generation_of resource_type hash) generations)

-- Of two leases of one resource the earlier has the lower generation, and not both are active.
abbrev pub IsApart : Lease → Lease → Type 0
IsApart later earlier =
    lease_of later.resource_type later.resource_identity_hash earlier ≡ true
    → (earlier.fencing_generation < later.fencing_generation)
      × ((is_active later && is_active earlier) ≡ false)

abbrev pub IsCounted : List Generation → Lease → Type 0
IsCounted generations lease =
    lease.fencing_generation ≤ counter lease.resource_type lease.resource_identity_hash generations

-- The leases of a resource have rising generations up to its counter, and at most one is active.
pub record IsFenced (generations : List Generation) (leases : List Lease) : Type 0 where
  pub apart : Pairwise IsApart leases
  pub counted : All (IsCounted generations) leases

-- A lease keeps its resource and its generation, and is not made active again.
pub record IsKept (old new : Lease) : Type 0 where
  pub resource_type : new.resource_type ≡ old.resource_type
  pub hash : new.resource_identity_hash ≡ old.resource_identity_hash
  pub generation : new.fencing_generation ≡ old.fencing_generation
  pub active : is_active new ≡ true → is_active old ≡ true

IsKept-later : (x old new : Lease) → IsKept old new → IsApart x old → IsApart x new
IsKept-later x old new k h e =
    let r = h (rw (← k.resource_type, ← k.hash) e) in
    (rw k.generation r.0, ground (arith, k.active, r.1))

IsKept-earlier : (y old new : Lease) → IsKept old new → IsApart old y → IsApart new y
IsKept-earlier y old new k h e =
    let r = h (rw (← k.resource_type, ← k.hash) e) in
    (rw k.generation r.0, ground (arith, k.active, r.1))

pub IsFenced-replaced :
    (generations : List Generation) (leases : List Lease) (p : Lease → Bool) (old new : Lease)
    → first p leases ≡ some old
    → IsKept old new
    → IsFenced generations leases
    → IsFenced generations (update_first p (λ _. new) leases)
IsFenced-replaced generations leases p old new e k f = record {
  apart =
      Pairwise-replaced p old new IsApart leases e (λ x. IsKept-later x old new k)
        (λ y. IsKept-earlier y old new k) f.apart;
  counted =
      All-replaced p old new (IsCounted generations) leases e
        (λ c. rw (k.generation, k.resource_type, k.hash) c) f.counted;
}

generation_of-eq :
    (t h : String) (g : Generation)
    → generation_of t h g ≡ true
    → (g.resource_type ≡ t) × (g.resource_identity_hash ≡ h)
generation_of-eq t h g e = (
  (eq_iff g.resource_type t).0 (ground (arith)),
  (eq_iff g.resource_identity_hash h).0 (ground (arith)),
)

module _ (t h : String) (now : ℕ) (gs : List Generation) where
  -- `next_generation` counts the resource up by one and no other.
  next_generation-counter :
      (g : Option Generation)
      → first (generation_of t h) gs ≡ g
      → ((next_generation t h now g gs).0 ≡ counter t h gs + 1)
        × (counter t h (next_generation t h now g gs).1 ≡ counter t h gs + 1)
  unfolding next_generation counter first
  next_generation-counter none e = rw (e, eq_refl t, eq_refl h) (refl, refl)
  next_generation-counter (some g) e =
      rw (e, first-updated (generation_of t h) (counted_up now) gs g (λ y. refl) e) (refl, refl)

  next_generation-counter_other :
      (t' h' : String) (g : Option Generation)
      → (str_eq t t' && str_eq h h') ≡ false
      → counter t' h' (next_generation t h now g gs).1 ≡ counter t' h' gs
  unfolding next_generation counter first
  next_generation-counter_other t' h' none e = rw e refl
  next_generation-counter_other t' h' (some g) e =
      let other : (y : Generation) → generation_of t h y ≡ true → generation_of t' h' y ≡ false =
        λ y s. let same = generation_of-eq t h y s in rw (same.0, same.1) e in
      rw
        (first-updated_other (generation_of t h) (generation_of t' h') (counted_up now) gs other
          other)
        refl

is_some-none : {A : Type 0} (o : Option A) → is_some o ≡ false → o ≡ none
is_some-none none e = refl
is_some-none (some a) e = cc

module _ ⦃rt : Runtime⦄ (a : Acquisition) (hash : String) (db : Store) where
  abbrev t : String
  t = a.resource_type

  abbrev up : ℕ × List Generation
  up = next_generation t hash a.now (first (generation_of t hash) db.generations) db.generations

  counted :
      (up.0 ≡ counter t hash db.generations + 1)
      × (counter t hash up.1 ≡ counter t hash db.generations + 1)
  counted = next_generation-counter t hash a.now db.generations _ refl

  -- The counter of no resource falls.
  counter_mono : (t' h' : String) → counter t' h' db.generations ≤ counter t' h' up.1
  counter_mono t' h' = elim (Bool-cases (str_eq t t' && str_eq hash h')) [
    | inl same ↦
        let et : t ≡ t' = (eq_iff t t').0 (ground (arith)) in
        let eh : hash ≡ h' = (eq_iff hash h').0 (ground (arith)) in
        rw (← et, ← eh) (omega (arith, counted.1))
    | inr other ↦
        omega (arith, next_generation-counter_other t hash a.now db.generations t' h' _ other)
  ]

  abbrev made : Lease
  made = new_lease a hash (rt.ulid db.session.drawn) up.0

  made-IsApart :
      (l : Lease)
      → IsCounted db.generations l
      → (lease_of t hash l && is_active l) ≡ false
      → IsApart made l
  unfolding new_lease
  made-IsApart l c free same =
      let et : l.resource_type ≡ t = (eq_iff l.resource_type t).0 (ground (arith)) in
      let eh : l.resource_identity_hash ≡ hash =
        (eq_iff l.resource_identity_hash hash).0 (ground (arith)) in
      let below : l.fencing_generation ≤ counter t hash db.generations =
        subst (λ x. l.fencing_generation ≤ counter x hash db.generations) et
          (subst (λ x. l.fencing_generation ≤ counter l.resource_type x db.generations) eh c) in
      (omega (arith, counted.0, below), ground (arith))

  -- An acquisition of a resource that has no active lease keeps the fencing: the new lease has a higher
  -- generation than every lease of the resource so far, and is its only active one.
  pub acquire-IsFenced :
      held t hash db.leases ≡ false
      → IsFenced db.generations db.leases
      → IsFenced (acquire_hashed a hash db).1.generations (acquire_hashed a hash db).1.leases
  unfolding acquire_hashed held new_lease counter
  acquire-IsFenced free f =
      let p = λ (l : Lease). lease_of t hash l && is_active l in
      let empty : first p db.leases ≡ none = is_some-none (first p db.leases) free in
      let out : All (λ l. IsCounted db.generations l × (p l ≡ false)) db.leases =
        All-and (IsCounted db.generations) (λ l. p l ≡ false) db.leases f.counted
          (none-All p db.leases empty) in
      record {
        apart = (
          All-mono (λ l. IsCounted db.generations l × (p l ≡ false)) (IsApart made) db.leases
              (λ l (c, e). made-IsApart l c e) out,
          f.apart,
        );
        counted = (
          rw (counted.0, counted.1) (omega arith),
          All-mono (IsCounted db.generations) (IsCounted up.1) db.leases
              (λ l c. omega (arith, counter_mono l.resource_type l.resource_identity_hash, c))
              f.counted,
        );
      }
