-- ===== src/Binding/Rewrites.antt =====
-- The rows of a binding after a command has written them.
use ai_auto_test_platform.Prelude.{
  ℕ, ◌≡◌, sym, ◌∙◌, subst, String, some, List, true, false, str_eq, eq_iff, eq_refl, Bool-cases,
  inl, inr,
}
use ai_auto_test_platform.Runtime.{Runtime}
use ai_auto_test_platform.Runners.Rows.{Lease}
use ai_auto_test_platform.Runners.Slots.{first}
use ai_auto_test_platform.Binding.Rows.{Generation}
use ai_auto_test_platform.Binding.Store.{Store, Call, is_lease, is_binding}
use ai_auto_test_platform.Binding.Lookup.{
  All-replaced, first-passes, first-replaced, first-replaced_other,
}
use ai_auto_test_platform.Binding.Leases.{is_active, held}
use ai_auto_test_platform.Binding.Fencing.{IsFenced, IsFenced-replaced}
use ai_auto_test_platform.Binding.Freeing.{IsIdle, idle-held, inactive-IsIdle, replaced-AreIdle}
use ai_auto_test_platform.Binding.Actions.{Held}
use ai_auto_test_platform.Binding.Moves.{IsSameLease, IsMove}
use ai_auto_test_platform.Binding.Command.{Change, put_lease, bumped, audit, event, write}

str_eq-flip : (i r : String) → str_eq i r ≡ false → str_eq r i ≡ false
str_eq-flip i r e = elim (Bool-cases (str_eq r i)) [
  | inl same ↦
      let s : r ≡ i = (eq_iff r i).0 same in
      let no : false ≡ true = sym e ∙ subst (λ t. str_eq i t ≡ true) (sym s) (eq_refl i) in cc
  | inr other ↦ other
]

-- Two leases of different ids, one written after the other.
module _ (i r : String) (old_i new_i old_r new_r : Lease) (leases : List Lease)
    (found_i : first (is_lease i) leases ≡ some old_i)
    (found_r : first (is_lease r) leases ≡ some old_r) (same_i : IsSameLease old_i new_i)
    (same_r : IsSameLease old_r new_r) (differ : str_eq i r ≡ false) where
  abbrev pub both : List Lease
  both = put_lease new_r (put_lease new_i leases)

  old_i-id : old_i.resource_lease_id ≡ i
  old_i-id = (eq_iff old_i.resource_lease_id i).0 (first-passes (is_lease i) leases old_i found_i)

  old_r-id : old_r.resource_lease_id ≡ r
  old_r-id = (eq_iff old_r.resource_lease_id r).0 (first-passes (is_lease r) leases old_r found_r)

  new_i-id : new_i.resource_lease_id ≡ i
  new_i-id = same_i.id ∙ old_i-id

  new_r-id : new_r.resource_lease_id ≡ r
  new_r-id = same_r.id ∙ old_r-id

  no_r : (l : Lease) → l.resource_lease_id ≡ i → is_lease r l ≡ false
  no_r l e = subst (λ t. str_eq t r ≡ false) (sym e) differ

  no_i : (l : Lease) → l.resource_lease_id ≡ r → is_lease i l ≡ false
  no_i l e = subst (λ t. str_eq t i ≡ false) (sym e) (str_eq-flip i r differ)

  under_new_i : first (is_lease new_i.resource_lease_id) leases ≡ some old_i
  under_new_i = subst (λ t. first (is_lease t) leases ≡ some old_i) (sym new_i-id) found_i

  under_new_r : first (is_lease new_r.resource_lease_id) (put_lease new_i leases) ≡ some old_r
  under_new_r =
      subst (λ t. first (is_lease t) (put_lease new_i leases) ≡ some old_r) (sym new_r-id)
        (first-replaced_other (is_lease new_i.resource_lease_id) old_i new_i (is_lease r) leases
            under_new_i (no_r old_i old_i-id) (no_r new_i new_i-id)
          ∙ found_r)

  pub found_new_r : first (is_lease r) both ≡ some new_r
  found_new_r =
      subst (λ t. first (is_lease t) both ≡ some new_r) new_r-id
        (first-replaced (is_lease new_r.resource_lease_id) old_r new_r (put_lease new_i leases)
          under_new_r (eq_refl new_r.resource_lease_id))

  pub found_new_i : first (is_lease i) both ≡ some new_i
  found_new_i =
      first-replaced_other (is_lease new_r.resource_lease_id) old_r new_r (is_lease i)
        (put_lease new_i leases) under_new_r (no_i old_r old_r-id) (no_i new_r new_r-id)
      ∙ subst (λ t. first (is_lease t) (put_lease new_i leases) ≡ some new_i) new_i-id
          (first-replaced (is_lease new_i.resource_lease_id) old_i new_i leases under_new_i
            (eq_refl new_i.resource_lease_id))

  pub both-IsFenced :
      (generations : List Generation) → IsFenced generations leases → IsFenced generations both
  both-IsFenced generations f =
      IsFenced-replaced generations (put_lease new_i leases) (is_lease new_r.resource_lease_id)
        old_r new_r under_new_r same_r.kept
        (IsFenced-replaced generations leases (is_lease new_i.resource_lease_id) old_i new_i
          under_new_i same_i.kept f)

  -- Both leases end, so neither resource has an active lease.
  pub both-frees :
      (generations : List Generation)
      → IsFenced generations leases
      → is_active old_i ≡ true
      → is_active old_r ≡ true
      → is_active new_i ≡ false
      → is_active new_r ≡ false
      → (held old_i.resource_type old_i.resource_identity_hash both ≡ false)
        × (held old_r.resource_type old_r.resource_identity_hash both ≡ false)
  both-frees generations f active_i active_r ends_i ends_r =
      let f_i =
        IsFenced-replaced generations leases (is_lease new_i.resource_lease_id) old_i new_i
          under_new_i same_i.kept f in
      (
        idle-held old_i both (
            All-replaced (is_lease new_r.resource_lease_id) old_r new_r (IsIdle old_i)
              (put_lease new_i leases) under_new_r (λ _. inactive-IsIdle old_i new_r ends_r)
              (replaced-AreIdle old_i active_i (is_lease new_i.resource_lease_id) new_i leases
                ends_i under_new_i f.apart)),
        idle-held old_r both (
            replaced-AreIdle old_r active_r (is_lease new_r.resource_lease_id) new_r
              (put_lease new_i leases) ends_r under_new_r f_i.apart),
      )

-- The binding and its leases as the store has them.
pub record IsStored (h : Held) (db : Store) : Type 0 where
  pub binding :
      first (is_binding h.binding.execution_binding_snapshot_id) db.bindings ≡ some h.binding
  pub identity : first (is_lease h.binding.identity_lease_id) db.leases ≡ some h.identity
  pub runner : first (is_lease h.binding.runner_lease_id) db.leases ≡ some h.runner

abbrev pub bump : ℕ → Held → Held
bump now h = record h { binding = bumped now h.binding }

module _ ⦃rt : Runtime⦄ (call : Call) (c : Change) (h h' : Held) (db : Store)
    (stored : IsStored h db) (m : IsMove h h')
    (differ : str_eq h.binding.identity_lease_id h.binding.runner_lease_id ≡ false) where
  pub write-IsStored : IsStored (bump c.now h') (write call c h' db)
  unfolding write audit event
  write-IsStored = record {
    binding =
        first-replaced (is_binding h'.binding.execution_binding_snapshot_id) h.binding
          (bumped c.now h'.binding) db.bindings
          (subst (λ t. first (is_binding t) db.bindings ≡ some h.binding) (sym m.id) stored.binding)
          (eq_refl h'.binding.execution_binding_snapshot_id);
    identity =
        subst (λ t. first (is_lease t) (write call c h' db).leases ≡ some h'.identity)
          (sym m.identity_lease_id)
          (found_new_i h.binding.identity_lease_id h.binding.runner_lease_id h.identity h'.identity
            h.runner h'.runner db.leases stored.identity stored.runner m.identity m.runner differ);
    runner =
        subst (λ t. first (is_lease t) (write call c h' db).leases ≡ some h'.runner)
          (sym m.runner_lease_id)
          (found_new_r h.binding.identity_lease_id h.binding.runner_lease_id h.identity h'.identity
            h.runner h'.runner db.leases stored.identity stored.runner m.identity m.runner differ);
  }

  pub write-IsFenced :
      IsFenced db.generations db.leases
      → IsFenced (write call c h' db).generations (write call c h' db).leases
  unfolding write audit event
  write-IsFenced f =
      both-IsFenced h.binding.identity_lease_id h.binding.runner_lease_id h.identity h'.identity
        h.runner h'.runner db.leases stored.identity stored.runner m.identity m.runner differ
        db.generations f

  pub write-frees :
      IsFenced db.generations db.leases
      → is_active h.identity ≡ true
      → is_active h.runner ≡ true
      → is_active h'.identity ≡ false
      → is_active h'.runner ≡ false
      → (held h.identity.resource_type h.identity.resource_identity_hash (write call c h' db).leases
          ≡ false)
        × (held h.runner.resource_type h.runner.resource_identity_hash (write call c h' db).leases
            ≡ false)
  unfolding write audit event
  write-frees f active_i active_r ends_i ends_r =
      both-frees h.binding.identity_lease_id h.binding.runner_lease_id h.identity h'.identity
        h.runner h'.runner db.leases stored.identity stored.runner m.identity m.runner differ
        db.generations f active_i active_r ends_i ends_r
