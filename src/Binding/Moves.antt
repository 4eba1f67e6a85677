-- ===== src/Binding/Moves.antt =====
-- What every binding command leaves alone, and what follows for the store.
use ai_auto_test_platform.Prelude.{
  ℕ, ◌≡◌, refl, String, Option, some, str_eq, arith, Bool-cases, inl, inr, ok, require, Ensures,
  Ensures-bind, Ensures-bind_eq, Ensures-if,
}
use ai_auto_test_platform.Owner.Rows.{ExecutionAttempt}
use ai_auto_test_platform.Runners.Rows.{Lease}
use ai_auto_test_platform.Binding.Rows.{CommandRequest}
use ai_auto_test_platform.Binding.Store.{Store, state_conflict}
use ai_auto_test_platform.Binding.Leases.{
  ended, is_active, release_lease, expire_lease, identity_ttl, runner_ttl,
}
use ai_auto_test_platform.Binding.Fencing.{IsKept}
use ai_auto_test_platform.Binding.Guards.{
  is_live, assert_version, assert_active_leases, release_active_leases,
}
use ai_auto_test_platform.Binding.Actions.{
  Action, consume, renew, release, recover, release_live, Held, Effect, settled, moved, renewed,
  act,
}

-- A lease keeps what its row is found by and fenced with.
pub record IsSameLease (old new : Lease) : Type 0 where
  pub kept : IsKept old new
  pub id : new.resource_lease_id ≡ old.resource_lease_id

-- The binding keeps its identity, its leases and their generations.
pub record IsMove (h h' : Held) : Type 0 where
  pub id : h'.binding.execution_binding_snapshot_id ≡ h.binding.execution_binding_snapshot_id
  pub identity_lease_id : h'.binding.identity_lease_id ≡ h.binding.identity_lease_id
  pub runner_lease_id : h'.binding.runner_lease_id ≡ h.binding.runner_lease_id
  pub version : h'.binding.row_version ≡ h.binding.row_version
  pub identity : IsSameLease h.identity h'.identity
  pub runner : IsSameLease h.runner h'.runner

unfoldable pub Moved : Held → Effect → Type 0
Moved h settled = Unit
Moved h (moved h') = IsMove h h'

renewed-same : (ttl now : ℕ) (l : Lease) → IsSameLease l (renewed ttl now l)
renewed-same ttl now l = record {
  kept = record { resource_type = refl; hash = refl; generation = refl; active = λ a. a };
  id = refl;
}

same : (l : Lease) → IsSameLease l l
same l = record {
  kept = record { resource_type = refl; hash = refl; generation = refl; active = λ a. a };
  id = refl;
}

released-same : (now : ℕ) (l : Lease) → IsSameLease l (ended "RELEASED" now l)
released-same now l = record {
  kept = record { resource_type = refl; hash = refl; generation = refl; active = λ a. cc };
  id = refl;
}

expired-same : (now : ℕ) (l : Lease) → IsSameLease l (expire_lease now l)
unfolding expire_lease
expired-same now l = elim (Bool-cases (is_active l)) [
  | inl a ↦ rw a (record {
    kept = record { resource_type = refl; hash = refl; generation = refl; active = λ a. cc };
    id = refl;
  })
  | inr a ↦ rw a (same l)
]

release_lease-same : (now : ℕ) (l : Lease) → Ensures (IsSameLease l) (release_lease now l)
unfolding release_lease
release_lease-same now l = ground (arith, same l, released-same now l)

module _ (h : Held) where
  -- Only the status and the times of the binding change, and its leases stay their rows.
  abbrev with_status : String → Option ℕ → Option ℕ → Lease → Lease → Held
  with_status status released_at expired_at identity runner = record {
    binding = record h.binding {
      status = status;
      released_at = released_at;
      expired_at = expired_at;
    };
    identity = identity;
    runner = runner;
  }

  with_status-IsMove :
      (status : String) (released_at expired_at : Option ℕ) (identity runner : Lease)
      → IsSameLease h.identity identity
      → IsSameLease h.runner runner
      → IsMove h (with_status status released_at expired_at identity runner)
  with_status-IsMove status released_at expired_at identity runner i r = record {
    id = refl;
    identity_lease_id = refl;
    runner_lease_id = refl;
    version = refl;
    identity = i;
    runner = r;
  }

  abbrev BothSame : Lease × Lease → Type 0
  BothSame (identity, runner) = IsSameLease h.identity identity × IsSameLease h.runner runner

  module _ (now : ℕ) where
    released-Moved : Ensures BothSame (release_active_leases h.identity h.runner now)
    unfolding release_active_leases release_lease assert_active_leases
    released-Moved =
        Ensures-bind_eq BothSame (assert_active_leases h.identity h.runner now) _ λ _ _.
          Ensures-bind (IsSameLease h.identity) BothSame (release_lease now h.identity) _
            (release_lease-same now h.identity)
            λ identity i.
              Ensures-bind (IsSameLease h.runner) BothSame (release_lease now h.runner) _
                (release_lease-same now h.runner) λ runner r. (i, r)

    module _ (db : Store) (user_id : String) (attempt : Option ExecutionAttempt)
        (body : CommandRequest) where
      pub act-Moved :
          (action : Action) → Ensures (Moved h) (act action db user_id attempt body now h)
      unfolding act Moved assert_active_leases
      act-Moved consume = ground (
        arith,
        with_status-IsMove "IN_USE" h.binding.released_at h.binding.expired_at h.identity h.runner
            (same h.identity) (same h.runner),
      )
      act-Moved renew = ground (
        arith,
        with_status-IsMove h.binding.status h.binding.released_at h.binding.expired_at
            (renewed identity_ttl now h.identity) (renewed runner_ttl now h.runner)
            (renewed-same identity_ttl now h.identity) (renewed-same runner_ttl now h.runner),
      )
      act-Moved release =
          Ensures-if (Moved h) (str_eq h.binding.status "RELEASED") (ok settled)
            (release_live body now h) (λ _. tt)
            λ _. Ensures-bind_eq (Moved h) (assert_version h.binding body.expected_version) _ λ _ _.
              Ensures-bind_eq (Moved h)
                (require (is_live h.binding)
                  (state_conflict "Only READY or IN_USE bindings can be released."))
                _
                λ _ _.
                  Ensures-bind BothSame (Moved h) (release_active_leases h.identity h.runner now) _
                    released-Moved
                    λ (identity, runner) (i, r).
                      with_status-IsMove "RELEASED" (some now) h.binding.expired_at identity runner
                        i r
      act-Moved recover = ground (
        arith,
        with_status-IsMove "EXPIRED" h.binding.released_at (some now) (expire_lease now h.identity)
            (expire_lease now h.runner) (expired-same now h.identity) (expired-same now h.runner),
      )
