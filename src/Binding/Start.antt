-- ===== src/Binding/Start.antt =====
-- What the creation of a binding comes to: `create` after its claim.
pub mod Ready
use ai_auto_test_platform.Prelude.{
  ℕ, ◌+◌, ◌≡◌, refl, ap, sym, ◌∙◌, subst, String, Option, some, List, [], ◌∷◌, Bool, true, false,
  ◌&&◌, str_eq, eq_iff, eq_refl, arith, runtime_error, Result, ok, err, ◌>>=◌, Ensures,
  Ensures-bind, Ensures-bind_eq,
}
use ai_auto_test_platform.Runtime.{Runtime}
use ai_auto_test_platform.Idempotency.{IdempotencyRecord}
use ai_auto_test_platform.Owner.Rows.{Dict, ExecutionAttempt}
use ai_auto_test_platform.Owner.Session.{flush}
use ai_auto_test_platform.Owner.Transition.{Command}
use ai_auto_test_platform.Owner.Task.{prepare_run_task}
use ai_auto_test_platform.Owner.Attempt.{prepare_execution_attempt}
use ai_auto_test_platform.Runners.Rows.{Lease}
use ai_auto_test_platform.Runners.Slots.{first}
use ai_auto_test_platform.Binding.Rows.{Binding, BindingInput}
use ai_auto_test_platform.Binding.Store.{Store, Encoding, Call, found, server_now, binding_of}
use ai_auto_test_platform.Binding.Leases.{
  held, lease_of, is_active, resource_hash, acquire_lease, acquire_hashed, Acquisition, new_lease,
}
use ai_auto_test_platform.Binding.Fencing.{IsFenced, acquire-IsFenced}
use ai_auto_test_platform.Binding.Resource.{BindingResource, resource}
use ai_auto_test_platform.Binding.Command.{audit, event, answer}
use ai_auto_test_platform.Binding.Execution.{of_ok}
use ai_auto_test_platform.Binding.Creation.{
  identity_acquisition, runner_acquisition, insert_binding, bind_owners, close_creation, creation,
  owner_command, create_resolved, create_after, create_fresh, persistence_conflict, owner_summary,
  is_task, new_binding,
}
use ai_auto_test_platform.Binding.Preflight.Resolve.{
  Preflight, rejected, resolved, Resolved, resolve_preflight, assertion,
}
use ai_auto_test_platform.Binding.Fit.{IsFree, IsFit, Judged, resolve-Judged}

-- The tables of leases.
abbrev pub AreFenced : Store → Type 0
AreFenced db = IsFenced db.generations db.leases

ok-injective : {A : Type 0} (a b : A) → ok a ≡ ok b → a ≡ b
ok-injective a b e = cc

module _ ⦃rt : Runtime⦄ where
  -- Neither the owners nor the evidence touch the leases or the bindings.
  record IsSameTables (before after : Store) : Type 0 where
    generations : after.generations ≡ before.generations
    leases : after.leases ≡ before.leases
    bindings : after.bindings ≡ before.bindings

  bind_owners-same :
      (c : Command) (b : Binding) (root : String) (attempt : ExecutionAttempt) (db : Store)
      → Ensures (IsSameTables db) (bind_owners c b root attempt db)
  unfolding bind_owners
  bind_owners-same c b root attempt db =
      Ensures-bind_eq (IsSameTables db)
        (found (runtime_error "ExecutionBinding RunTask disappeared")
          (first (is_task root) db.tasks))
        _
        λ task _.
          Ensures-bind_eq (IsSameTables db) (prepare_run_task c (owner_summary b) task db.session) _
            λ (task', session) _.
              Ensures-bind_eq (IsSameTables db)
                (prepare_execution_attempt c (owner_summary b)
                  (record attempt {
                    execution_binding_snapshot_id = some b.execution_binding_snapshot_id;
                  })
                  session)
                _
                λ (attempt', session') _. record {
                  generations = refl;
                  leases = refl;
                  bindings = refl;
                }

  -- What an acquisition leaves.
  record IsAcquired (lease : Lease) (before after : Store) : Type 0 where
    leases : after.leases ≡ lease ∷ before.leases
    bindings : after.bindings ≡ before.bindings
    id : lease.resource_lease_id ≡ rt.ulid before.session.drawn
    drawn : after.session.drawn ≡ before.session.drawn + 1
    status : lease.status ≡ "ACTIVE"

  module _ ⦃enc : Encoding⦄ where
    -- An acquisition of a free resource keeps the fencing.
    acquire_lease-IsFenced :
        (a : Acquisition) (db : Store)
        → IsFree a.resource_type a.resource_identity db
        → AreFenced db
        → Ensures (λ (out : Lease × Store). AreFenced out.1) (acquire_lease a db)
    unfolding acquire_lease
    acquire_lease-IsFenced a db free f =
        rw free.hash_is (acquire-IsFenced a free.hash db free.free f)

    -- A resource of another type stays free.
    acquire_lease-IsFree :
        (a : Acquisition) (db : Store) (t identity : String)
        → str_eq a.resource_type t ≡ false
        → IsFree t identity db
        → Ensures (λ (out : Lease × Store). IsFree t identity out.1) (acquire_lease a db)
    unfolding acquire_lease acquire_hashed held first new_lease
    acquire_lease-IsFree a db t identity other free =
        Ensures-bind_eq (λ (out : Lease × Store). IsFree t identity out.1)
          (resource_hash a.resource_type a.resource_identity) _
          λ hash e. record {
            hash = free.hash;
            hash_is = free.hash_is;
            free = ground (arith, other, free.free);
          }

    acquire_lease-IsAcquired :
        (a : Acquisition) (db : Store)
        → Ensures (λ (out : Lease × Store). IsAcquired out.0 db out.1) (acquire_lease a db)
    unfolding acquire_lease acquire_hashed new_lease flush
    acquire_lease-IsAcquired a db =
        Ensures-bind_eq (λ (out : Lease × Store). IsAcquired out.0 db out.1)
          (resource_hash a.resource_type a.resource_identity) _
          λ hash e. record {
            leases = refl;
            bindings = refl;
            id = refl;
            drawn = refl;
            status = refl;
          }

    module _ (call : Call) (body : BindingInput) (actor_id : String) (r : IdempotencyRecord Dict)
        (x : Resolved) (db : Store) where
      -- The two leases, and what their acquisitions left.
      record IsCreated (db' : Store) : Type 0 where
        identity : Lease
        runner : Lease
        db₁ : Store
        db₂ : Store
        b : Binding
        first_lease : IsAcquired identity db db₁
        second_lease : IsAcquired runner db₁ db₂
        fenced :
            IsFree "IDENTITY" x.identity_resource db
            → IsFree "RUNNER" x.runner_resource db
            → AreFenced db
            → AreFenced db₂
        generations : db'.generations ≡ db₂.generations
        leases : db'.leases ≡ db₂.leases
        bindings : db'.bindings ≡ b ∷ db.bindings
        identity_id : b.identity_lease_id ≡ identity.resource_lease_id
        runner_id : b.runner_lease_id ≡ runner.resource_lease_id
        status : b.status ≡ "READY"

      create_resolved-IsCreated :
          Ensures
            (λ (out : BindingResource × Store). IsCreated out.1)
            (create_resolved call body actor_id r x db)
      unfolding create_resolved insert_binding close_creation audit event new_binding
      create_resolved-IsCreated =
          let P = λ (out : BindingResource × Store). IsCreated out.1 in
          Ensures-bind_eq P (server_now call) _ λ now _.
            Ensures-bind_eq P (found assertion x.attempt.run_task_id) _ λ root _.
              let a = identity_acquisition call body x root now in
              let a' = runner_acquisition call body x now in
              Ensures-bind_eq P (acquire_lease a db) _ λ (identity, db₁) e₁.
                Ensures-bind_eq P (acquire_lease a' db₁) _ λ (runner, db₂) e₂.
                  Ensures-bind_eq P (found persistence_conflict x.runner.last_heartbeat_at) _
                    λ heartbeat _.
                      let (b, db₃) =
                        insert_binding call body x identity runner actor_id heartbeat now db₂ in
                      Ensures-bind (IsSameTables db₃) P
                        (bind_owners (owner_command call actor_id now) b root x.attempt db₃) _
                        (bind_owners-same (owner_command call actor_id now) b root x.attempt db₃)
                        λ db₄ same.
                          let db' = close_creation call (creation actor_id now) r b db₄ in
                          let got =
                            of_ok (λ (out : Lease × Store). IsAcquired out.0 db out.1) _
                              (identity, db₁) e₁ (acquire_lease-IsAcquired a db) in
                          let got' =
                            of_ok (λ (out : Lease × Store). IsAcquired out.0 db₁ out.1) _
                              (runner, db₂) e₂ (acquire_lease-IsAcquired a' db₁) in
                          let made : IsCreated db' = record {
                            identity = identity;
                            runner = runner;
                            db₁ = db₁;
                            db₂ = db₂;
                            b = b;
                            first_lease = got;
                            second_lease = got';
                            fenced = λ free_i free_r f.
                                let f₁ =
                                  of_ok (λ (out : Lease × Store). AreFenced out.1) _ (identity, db₁)
                                    e₁ (acquire_lease-IsFenced a db free_i f) in
                                let free' =
                                  of_ok
                                    (λ (out : Lease × Store).
                                      IsFree "RUNNER" x.runner_resource out.1)
                                    _ (identity, db₁) e₁
                                    (acquire_lease-IsFree a db "RUNNER" x.runner_resource refl
                                      free_r) in
                                of_ok (λ (out : Lease × Store). AreFenced out.1) _ (runner, db₂) e₂
                                  (acquire_lease-IsFenced a' db₁ free' f₁);
                            generations = same.generations;
                            leases = same.leases;
                            bindings = same.bindings ∙ ap (◌∷◌ b) (got'.bindings ∙ got.bindings);
                            identity_id = refl;
                            runner_id = refl;
                            status = refl;
                          } in
                          Ensures-bind_eq P (binding_of b.execution_binding_snapshot_id db') _
                            λ b' _. Ensures-bind_eq P (resource db' b') _ λ res _. made
