-- ===== src/Binding/Recovery.antt =====
-- No resource stays held: a binding with an expired lease can be recovered.
use ai_auto_test_platform.Prelude.{
  ℕ, ◌≡◌, refl, ◌∙◌, String, some, List, true, false, ◌==◌, leb, str_eq, arith, ok, Returns,
  Returns-Ensures, Ensures-bind_eq,
}
use ai_auto_test_platform.Runtime.{Runtime}
use ai_auto_test_platform.Idempotency.{IdempotencyRecord}
use ai_auto_test_platform.Owner.Rows.{ExecutionAttempt, Dict}
use ai_auto_test_platform.Runners.Readiness.{is_some}
use ai_auto_test_platform.Runners.Rows.{Lease}
use ai_auto_test_platform.Runners.Slots.{first}
use ai_auto_test_platform.Binding.Rows.{CommandRequest, Policy}
use ai_auto_test_platform.Binding.Store.{Store, Call, locked_lease, binding_of}
use ai_auto_test_platform.Binding.Leases.{is_active, held, expire_lease}
use ai_auto_test_platform.Binding.Fencing.{IsFenced, IsKept}
use ai_auto_test_platform.Binding.Guards.{is_live, may_recover, assert_owner, assert_generations}
use ai_auto_test_platform.Binding.Actions.{recover, Held, moved, is_stale, act}
use ai_auto_test_platform.Binding.Moves.{Moved, act-Moved, IsMove}
use ai_auto_test_platform.Binding.Phases.{
  Phase, IsLive, live_ready, live_in_use, ready, in_use, released, expired, Shows, live-active,
  expired-status,
}
use ai_auto_test_platform.Binding.Resource.{BindingResource, resource, resource_with, is_policy}
use ai_auto_test_platform.Binding.Command.{change_of, finish, answer, execute, write, audit, event}
use ai_auto_test_platform.Binding.Carried.{IsCurrent, IsOwner, is_attempt, two_rows}
use ai_auto_test_platform.Binding.Rewrites.{IsStored, bump, write-IsStored, write-frees}
use ai_auto_test_platform.Binding.Execution.{of_ok}

owned :
    (h : Held) (a : ExecutionAttempt) (body : CommandRequest)
    → IsOwner h.binding h.identity h.runner a body
    → assert_owner h.binding h.identity h.runner (some a) body ≡ ok tt
unfolding assert_owner
owned h a body o = ground (arith, o.of_binding, o.of_identity, o.of_runner)

current :
    (h : Held) (body : CommandRequest)
    → IsCurrent h.binding h.identity h.runner body
    → assert_generations h.binding h.identity h.runner body ≡ ok tt
unfolding assert_generations
current h body c =
    ground (arith, c.asked_identity, c.asked_runner, c.bound_identity, c.bound_runner)

-- The store has the binding with both leases expired, and no active lease on the resource of either.
pub record IsFreed (db : Store) : Type 0 where
  pub rows : Held
  pub is_stored : IsStored rows db
  pub shows : Shows expired rows
  pub free_identity :
      held rows.identity.resource_type rows.identity.resource_identity_hash db.leases ≡ false
  pub free_runner :
      held rows.runner.resource_type rows.runner.resource_identity_hash db.leases ≡ false

-- The answer comes from the store that it is read in.
answer-Returns :
    ⦃rt : Runtime⦄ (P : Store → Type 0) (id : String) (db : Store)
    → Returns (λ _. Unit {0}) (answer id db)
    → P db
    → Returns (λ (out : BindingResource × Store). P out.1) (answer id db)
answer-Returns P id db returns p =
    let Q = λ (out : BindingResource × Store). P out.1 in
    Returns-Ensures Q (answer id db) returns
      (Ensures-bind_eq Q (binding_of id db) _ λ b _. Ensures-bind_eq Q (resource db b) _ λ r _. p)

active-test : (l : Lease) → l.status ≡ "ACTIVE" → is_active l ≡ true
active-test l e = rw e refl

expired-test : (l : Lease) → l.status ≡ "EXPIRED" → is_active l ≡ false
expired-test l e = rw e refl

-- The resource of a lease that was kept is the same.
held-kept :
    (old new : Lease) (leases : List Lease)
    → IsKept old new
    → held old.resource_type old.resource_identity_hash leases ≡ false
    → held new.resource_type new.resource_identity_hash leases ≡ false
held-kept old new leases k h = rw (k.resource_type, k.hash) h

module _ ⦃rt : Runtime⦄ (call : Call) (actor_id : String) (body : CommandRequest)
    (r : IdempotencyRecord Dict) (db : Store) (h : Held) where
  -- What a recovery of the binding rests on, its first lease being past its time.
  pub record IsRecoverable : Type 0 where
    pub now : ℕ
    pub attempt : ExecutionAttempt
    pub policy : Policy
    pub is_stored : IsStored h db
    pub time : call.server_time ≡ some now
    pub found_attempt : first (is_attempt h.binding.execution_attempt_id) db.attempts ≡ some attempt
    pub owner : IsOwner h.binding h.identity h.runner attempt body
    pub generations : IsCurrent h.binding h.identity h.runner body
    pub version : (h.binding.row_version == body.expected_version) ≡ true
    pub evidence : is_some body.recovery_evidence ≡ true
    pub role : may_recover db actor_id now ≡ true
    pub late : leb h.identity.expires_at now ≡ true
    pub found_policy :
        first (is_policy h.binding.runtime_policy_revision_id) db.policies ≡ some policy

  live-test : (p : Phase) → IsLive p → Shows p h → is_live h.binding ≡ true
  live-test ready live_ready s = rw s.binding refl
  live-test in_use live_in_use s = rw s.binding refl
  live-test released live s = elim live [ ]
  live-test expired live s = elim live [ ]

  module _ (c : IsRecoverable) (p : Phase) (live : IsLive p) (s : Shows p h) where
    abbrev last : Held
    last = record {
      binding = record h.binding { status = "EXPIRED"; expired_at = some c.now };
      identity = expire_lease c.now h.identity;
      runner = expire_lease c.now h.runner;
    }

    acts : act recover db actor_id (some c.attempt) body c.now h ≡ ok (moved last)
    unfolding act is_stale
    acts = let l = live-test p live s in ground (arith, c.evidence, l, c.version, c.role, c.late)

    last-IsMove : IsMove h last
    unfolding Moved
    last-IsMove =
        of_ok (Moved h) _ (moved last) acts
          (act-Moved h c.now db actor_id (some c.attempt) body recover)

    differ : str_eq h.binding.identity_lease_id h.binding.runner_lease_id ≡ false
    differ =
        two_rows h.binding h.identity h.runner c.attempt body db.leases c.is_stored.identity
          c.is_stored.runner c.owner

    -- The store after a recovery.
    abbrev after : Call → Store
    after call' =
        finish call' (change_of recover actor_id body c.now h.binding) r h.binding (moved last) db

    closes :
        (call' : Call)
        → Returns (λ _. Unit {0}) (answer h.binding.execution_binding_snapshot_id (after call'))
    unfolding finish binding_of change_of resource resource_with write audit event
    closes call' =
        let w =
          write-IsStored call' (change_of recover actor_id body c.now h.binding) h last db
            c.is_stored last-IsMove differ in
        rw (w.binding, w.identity, w.runner, c.found_policy) tt

    after-IsFreed : (call' : Call) → IsFenced db.generations db.leases → IsFreed (after call')
    unfolding finish change_of
    after-IsFreed call' f =
        let change = change_of recover actor_id body c.now h.binding in
        let w = write-IsStored call' change h last db c.is_stored last-IsMove differ in
        let active_i = s.identity ∙ live-active live in
        let active_r = s.runner ∙ live-active live in
        let ends_i = expired-status c.now h.identity active_i in
        let ends_r = expired-status c.now h.runner active_r in
        let free =
          write-frees call' change h last db c.is_stored last-IsMove differ f
            (active-test h.identity active_i) (active-test h.runner active_r)
            (expired-test last.identity ends_i) (expired-test last.runner ends_r) in
        let leases = (write call' change last db).leases in
        record {
          rows = bump c.now last;
          is_stored = record { binding = w.binding; identity = w.identity; runner = w.runner };
          shows = record { binding = refl; identity = ends_i; runner = ends_r };
          free_identity =
              held-kept h.identity last.identity leases last-IsMove.identity.kept free.0;
          free_runner = held-kept h.runner last.runner leases last-IsMove.runner.kept free.1;
        }

    -- In a store with fenced leases, a live binding whose identity lease is past its time can be
    -- recovered: an administrator's request with evidence, the binding's version, the owner and the
    -- present generations is carried out, the binding and both of its leases are EXPIRED in the store
    -- after it, and no lease of either resource is active there, so both resources are free.
    pub recover_frees :
        IsFenced db.generations db.leases
        → Returns
            (λ (out : BindingResource × Store). IsFreed out.1)
            (execute call recover actor_id body r h.binding db)
    unfolding execute locked_lease
    recover_frees f =
        let call' : Call = record call { server_time = some c.now } in
        rw
          (
            c.time,
            c.is_stored.identity,
            c.is_stored.runner,
            c.found_attempt,
            owned h c.attempt body c.owner,
            current h body c.generations,
            acts,
          )
          (answer-Returns IsFreed h.binding.execution_binding_snapshot_id (after call')
            (closes call') (after-IsFreed call' f))
