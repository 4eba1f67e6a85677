-- ===== src/Binding/Freeing.antt =====
-- A resource whose active lease ends is free.
use ai_auto_test_platform.Prelude.{
  ◌≡◌, refl, some, List, [], ◌∷◌, All, Bool, true, false, ◌&&◌, eq_iff, eq_refl, arith, Bool-cases,
  inl, inr,
}
use ai_auto_test_platform.Runners.Rows.{Lease}
use ai_auto_test_platform.Runners.Slots.{first, update_first}
use ai_auto_test_platform.Binding.Lookup.{Pairwise, first-All}
use ai_auto_test_platform.Binding.Leases.{lease_of, is_active, held}
use ai_auto_test_platform.Binding.Fencing.{IsApart}

pub lease_of-flip :
    (a b : Lease)
    → lease_of a.resource_type a.resource_identity_hash b ≡ true
    → lease_of b.resource_type b.resource_identity_hash a ≡ true
lease_of-flip a b e =
    let t : b.resource_type ≡ a.resource_type = (eq_iff _ _).0 (ground (arith)) in
    let h : b.resource_identity_hash ≡ a.resource_identity_hash = (eq_iff _ _).0 (ground (arith)) in
    rw (t, h, eq_refl a.resource_type, eq_refl a.resource_identity_hash) refl

-- `l` is no active lease of the resource of `lease`.
abbrev pub IsIdle : Lease → Lease → Type 0
IsIdle lease l =
    (lease_of lease.resource_type lease.resource_identity_hash l && is_active l) ≡ false

pub idle-held :
    (lease : Lease) (leases : List Lease)
    → All (IsIdle lease) leases
    → held lease.resource_type lease.resource_identity_hash leases ≡ false
unfolding held first
idle-held lease [] h = refl
idle-held lease (l ∷ leases) h = ground (arith, h.0, idle-held lease leases h.1)

pub inactive-IsIdle : (lease l : Lease) → is_active l ≡ false → IsIdle lease l
inactive-IsIdle lease l e = ground (arith, e)

earlier-IsIdle : (old l : Lease) → is_active old ≡ true → IsApart old l → IsIdle old l
earlier-IsIdle old l a apart = ground (arith, a, apart)

later-IsIdle : (old l : Lease) → is_active old ≡ true → IsApart l old → IsIdle old l
later-IsIdle old l a apart = ground (arith, a, apart, lease_of-flip old l)

module _ (old : Lease) (active : is_active old ≡ true) where
  earlier-AreIdle : (leases : List Lease) → All (IsApart old) leases → All (IsIdle old) leases
  earlier-AreIdle [] h = tt
  earlier-AreIdle (l ∷ leases) h = (earlier-IsIdle old l active h.0, earlier-AreIdle leases h.1)

  -- The active lease of a resource is replaced by one that is not active.
  pub replaced-AreIdle :
      (q : Lease → Bool) (new : Lease) (leases : List Lease)
      → is_active new ≡ false
      → first q leases ≡ some old
      → Pairwise IsApart leases
      → All (IsIdle old) (update_first q (λ _. new) leases)
  unfolding first update_first
  replaced-AreIdle q new [] ends e h = tt
  replaced-AreIdle q new (x ∷ xs) ends e h = elim (Bool-cases (q x)) [
    | inl c ↦
        let same : x ≡ old = ground (arith) in
        let behind : All (IsApart old) xs = rw (← same) h.0 in
        rw c (inactive-IsIdle old new ends, earlier-AreIdle xs behind)
    | inr c ↦
        let e' : first q xs ≡ some old = ground (arith) in
        rw c (
          later-IsIdle old x active (first-All q (IsApart x) xs old h.0 e'),
          replaced-AreIdle q new xs ends e' h.1,
        )
  ]
