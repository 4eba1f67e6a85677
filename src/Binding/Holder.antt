-- ===== src/Binding/Holder.antt =====
-- Who may use a resource: a consumption or a renewal is carried out for the one holder of the lease.
use ai_auto_test_platform.Prelude.{
  ℕ, ◌≡◌, ◌⊎◌, ◌<◌, String, Option, some, List, All, All-mono, true, ◌&&◌, arith, inl, inr, Ensures,
  Ensures-mono,
}
use ai_auto_test_platform.Runtime.{Runtime}
use ai_auto_test_platform.Idempotency.{IdempotencyRecord}
use ai_auto_test_platform.Owner.Rows.{ExecutionAttempt, Dict}
use ai_auto_test_platform.Runners.Rows.{Lease}
use ai_auto_test_platform.Runners.Slots.{first}
use ai_auto_test_platform.Binding.Rows.{Binding, CommandRequest, Generation}
use ai_auto_test_platform.Binding.Store.{Store, Call, is_lease}
use ai_auto_test_platform.Binding.Lookup.{first-Pairwise}
use ai_auto_test_platform.Binding.Leases.{lease_of, is_active}
use ai_auto_test_platform.Binding.Fencing.{IsFenced, IsApart}
use ai_auto_test_platform.Binding.Freeing.{lease_of-flip}
use ai_auto_test_platform.Binding.Guards.{is_current, assert_active_leases}
use ai_auto_test_platform.Binding.Actions.{Action, consume, renew, release, recover, Held, act}
use ai_auto_test_platform.Binding.Command.{execute}
use ai_auto_test_platform.Binding.Carried.{IsCurrent, Done, execute-Carried}
use ai_auto_test_platform.Binding.Execution.{of_ok}

-- The commands that use the resources.
pub data IsUse : Action → Type 0 where
  uses_consume : IsUse consume
  uses_renew : IsUse renew

-- `lease` is in force at `now`, and no other lease of its resource is active.
pub record IsHeld (now : ℕ) (leases : List Lease) (lease : Lease) : Type 0 where
  pub active : is_active lease ≡ true
  pub unexpired : now < lease.expires_at
  pub sole :
      All
        (λ l.
          (lease_of lease.resource_type lease.resource_identity_hash l && is_active l) ≡ true
          → l ≡ lease)
        leases

only :
    (lease l : Lease)
    → is_active lease ≡ true
    → (l ≡ lease) ⊎ (IsApart lease l ⊎ IsApart l lease)
    → (lease_of lease.resource_type lease.resource_identity_hash l && is_active l) ≡ true
    → l ≡ lease
only lease l a (inl e) both = e
only lease l a (inr (inl apart)) both = absurd (ground (arith, apart))
only lease l a (inr (inr apart)) both = absurd (ground (arith, apart, lease_of-flip lease l))

module _ (generations : List Generation) (leases : List Lease)
    (f : IsFenced generations leases) where
  sole_active :
      (id : String) (lease : Lease)
      → first (is_lease id) leases ≡ some lease
      → is_active lease ≡ true
      → All
          (λ l.
            (lease_of lease.resource_type lease.resource_identity_hash l && is_active l) ≡ true
            → l ≡ lease)
          leases
  sole_active id lease e a =
      All-mono (λ l. (l ≡ lease) ⊎ (IsApart lease l ⊎ IsApart l lease))
        (λ l.
          (lease_of lease.resource_type lease.resource_identity_hash l && is_active l) ≡ true
          → l ≡ lease)
        leases (λ l c both. only lease l a c both)
        (first-Pairwise IsApart (is_lease id) leases lease f.apart e)

-- The leases were in force when a use was carried out.
use_current :
    (action : Action) (db : Store) (user_id : String) (attempt : Option ExecutionAttempt)
    (body : CommandRequest) (now : ℕ) (h : Held)
    → IsUse action
    → Ensures
        (λ _. (is_current now h.identity && is_current now h.runner) ≡ true)
        (act action db user_id attempt body now h)
unfolding act assert_active_leases
use_current consume db user_id attempt body now h uses_consume = ground (arith)
use_current renew db user_id attempt body now h uses_renew = ground (arith)
use_current release db user_id attempt body now h u = elim u [ ]
use_current recover db user_id attempt body now h u = elim u [ ]

module _ ⦃rt : Runtime⦄ (call : Call) (action : Action) (actor_id : String) (body : CommandRequest)
    (r : IdempotencyRecord Dict) (b : Binding) (db : Store) where
  -- The binding's two leases, in force for this request alone.
  pub record IsHolder : Type 0 where
    pub now : ℕ
    pub time : call.server_time ≡ some now
    pub identity : Lease
    pub runner : Lease
    pub found_identity : first (is_lease b.identity_lease_id) db.leases ≡ some identity
    pub found_runner : first (is_lease b.runner_lease_id) db.leases ≡ some runner
    pub generations : IsCurrent b identity runner body
    pub holds_identity : IsHeld now db.leases identity
    pub holds_runner : IsHeld now db.leases runner

  -- In a store with fenced leases, a consumption or a renewal is carried out only for the holder: the
  -- request names the generations of the binding's two leases, both are active and have not expired by
  -- the server's time, and no other lease of either resource is active.
  pub execute-IsHolder :
      IsFenced db.generations db.leases
      → IsUse action
      → Ensures (λ _. IsHolder) (execute call action actor_id body r b db)
  execute-IsHolder f u =
      Ensures-mono (Done call action actor_id body r b db) (λ _. IsHolder)
        (execute call action actor_id body r b db)
        (execute-Carried call action actor_id body r b db)
        λ (res, db') c.
          let h : Held = record { binding = b; identity = c.identity; runner = c.runner } in
          let ok_now : (is_current c.now c.identity && is_current c.now c.runner) ≡ true =
            of_ok (λ _. (is_current c.now c.identity && is_current c.now c.runner) ≡ true) _
              c.effect c.acted (use_current action db actor_id (some c.attempt) body c.now h u) in
          let identity_active : is_active c.identity ≡ true = ground (arith, ok_now) in
          let runner_active : is_active c.runner ≡ true = ground (arith, ok_now) in
          record {
            now = c.now;
            time = c.time;
            identity = c.identity;
            runner = c.runner;
            found_identity = c.found_identity;
            found_runner = c.found_runner;
            generations = c.current;
            holds_identity = record {
              active = identity_active;
              unexpired = ground (arith, ok_now);
              sole =
                  sole_active db.generations db.leases f b.identity_lease_id c.identity
                    c.found_identity identity_active;
            };
            holds_runner = record {
              active = runner_active;
              unexpired = ground (arith, ok_now);
              sole =
                  sole_active db.generations db.leases f b.runner_lease_id c.runner c.found_runner
                    runner_active;
            };
          }
