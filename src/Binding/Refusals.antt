-- ===== src/Binding/Refusals.antt =====
-- The errors of a binding command, and a recovery that meets none.
use ai_auto_test_platform.Prelude.{
  ℕ, ◌≡◌, refl, ap, String, Option, some, false, ◌&&◌, ◌==◌, arith, Error, Result, ok, err, ◌>>=◌,
  Refuses, Refuses-bind,
}
use ai_auto_test_platform.Runtime.{Runtime}
use ai_auto_test_platform.Idempotency.{IdempotencyRecord}
use ai_auto_test_platform.Owner.Rows.{ExecutionAttempt, Dict}
use ai_auto_test_platform.Runners.Rows.{Lease}
use ai_auto_test_platform.Runners.Slots.{first}
use ai_auto_test_platform.Binding.Rows.{Binding, CommandRequest}
use ai_auto_test_platform.Binding.Store.{
  Store, Call, not_found, state_conflict, fencing_conflict, concurrency_conflict, time_unavailable,
  recovery_forbidden, server_now, is_lease, locked_lease, binding_of,
}
use ai_auto_test_platform.Binding.Leases.{release_lease}
use ai_auto_test_platform.Binding.Guards.{
  assert_owner, assert_generations, assert_active_leases, release_active_leases,
}
use ai_auto_test_platform.Binding.Actions.{Action, consume, renew, release, recover, Held, act}
use ai_auto_test_platform.Binding.Resource.{resource, resource_with}
use ai_auto_test_platform.Binding.Command.{change_of, finish, execute}
use ai_auto_test_platform.Binding.Carried.{is_attempt}

pub data IsRefusal : Error → Type 0 where
  no_time : IsRefusal time_unavailable
  no_binding : IsRefusal not_found
  not_holder : IsRefusal fencing_conflict
  old_version : IsRefusal concurrency_conflict
  no_role : IsRefusal recovery_forbidden
  wrong_state : (detail : String) → IsRefusal (state_conflict detail)

module _ (db : Store) (user_id : String) (attempt : Option ExecutionAttempt) (body : CommandRequest)
    (now : ℕ) (h : Held) where
  act-IsRefusal : (action : Action) → Refuses IsRefusal (act action db user_id attempt body now h)
  unfolding act assert_active_leases release_active_leases release_lease
  act-IsRefusal consume =
      ground (arith, old_version, not_holder, wrong_state "Only a READY binding can be consumed.")
  act-IsRefusal renew = ground (
    arith,
    old_version,
    not_holder,
    wrong_state "Only READY or IN_USE bindings can renew leases.",
  )
  act-IsRefusal release =
      ground (
        arith,
        old_version,
        not_holder,
        wrong_state "Only READY or IN_USE bindings can be released.",
      )
  act-IsRefusal recover = ground (
    arith,
    old_version,
    no_role,
    wrong_state "Recovery evidence is required.",
    wrong_state "Only READY or IN_USE bindings can be recovered.",
    wrong_state
        "Recovery requires expired leases, an unavailable Runner, or a terminal execution attempt.",
  )

locked_lease-IsRefusal : (id : String) (db : Store) → Refuses IsRefusal (locked_lease id db)
unfolding locked_lease
locked_lease-IsRefusal id db = ground (arith, not_holder)

binding_of-IsRefusal : (id : String) (db : Store) → Refuses IsRefusal (binding_of id db)
unfolding binding_of
binding_of-IsRefusal id db = ground (arith, no_binding)

resource-IsRefusal : (db : Store) (b : Binding) → Refuses IsRefusal (resource db b)
unfolding resource resource_with
resource-IsRefusal db b =
    ground (arith, wrong_state "The binding snapshot references unavailable immutable facts.")

stale_generations :
    (b : Binding) (identity runner : Lease) (body : CommandRequest)
    → ((body.identity_lease_generation == identity.fencing_generation)
        && (body.runner_lease_generation == runner.fencing_generation))
      ≡ false
    → assert_generations b identity runner body ≡ err fencing_conflict
unfolding assert_generations
stale_generations b identity runner body e = ground (arith)

-- Two guards of one error, of which the second fails.
refused :
    {B : Type 0} (m : Result (Unit {0})) (k : Unit {0} → Result B)
    → Refuses (λ e. e ≡ fencing_conflict) m
    → k tt ≡ err fencing_conflict
    → (m >>= k) ≡ err fencing_conflict
refused (ok a) k e last = last
refused (err x) k e last = ap err e

module _ (b : Binding) (identity runner : Lease) (attempt : Option ExecutionAttempt)
    (body : CommandRequest) where
  owner-IsRefusal : Refuses IsRefusal (assert_owner b identity runner attempt body)
  unfolding assert_owner
  owner-IsRefusal = ground (arith, not_holder)

  owner_error : Refuses (λ e. e ≡ fencing_conflict) (assert_owner b identity runner attempt body)
  unfolding assert_owner
  owner_error = ground (arith)

  generations-IsRefusal : Refuses IsRefusal (assert_generations b identity runner body)
  unfolding assert_generations
  generations-IsRefusal = ground (arith, not_holder)

module _ ⦃rt : Runtime⦄ (call : Call) (action : Action) (actor_id : String) (body : CommandRequest)
    (r : IdempotencyRecord Dict) (b : Binding) (db : Store) where
  -- A command that has been claimed either answers or meets one of six refusals: no server time (503),
  -- no binding (404), a lease that is no longer the request's or an old version (409), no recovery
  -- role (403), or a status that the command does not admit (409). No other error leaves it.
  pub execute-IsRefusal : Refuses IsRefusal (execute call action actor_id body r b db)
  unfolding execute
  execute-IsRefusal =
      let attempt = first (is_attempt b.execution_attempt_id) db.attempts in
      Refuses-bind IsRefusal (server_now call) _ (ground (arith, no_time)) λ now.
        Refuses-bind IsRefusal (locked_lease b.identity_lease_id db) _
          (locked_lease-IsRefusal b.identity_lease_id db)
          λ identity.
            Refuses-bind IsRefusal (locked_lease b.runner_lease_id db) _
              (locked_lease-IsRefusal b.runner_lease_id db)
              λ runner.
                Refuses-bind IsRefusal (assert_owner b identity runner attempt body) _
                  (owner-IsRefusal b identity runner attempt body)
                  λ _.
                    Refuses-bind IsRefusal (assert_generations b identity runner body) _
                      (generations-IsRefusal b identity runner attempt body)
                      λ _.
                        let h : Held = record {
                          binding = b;
                          identity = identity;
                          runner = runner;
                        } in
                        Refuses-bind IsRefusal (act action db actor_id attempt body now h) _
                          (act-IsRefusal db actor_id attempt body now h action)
                          λ effect.
                            let db' =
                              finish call (change_of action actor_id body now b) r b effect db in
                            Refuses-bind IsRefusal (binding_of b.execution_binding_snapshot_id db')
                              _ (binding_of-IsRefusal b.execution_binding_snapshot_id db')
                              λ b'.
                                Refuses-bind IsRefusal (resource db' b') _
                                  (resource-IsRefusal db' b') λ _. tt

  -- Whatever the command and the store, a request that does not name the present generations of both
  -- leases of the binding is refused with the fencing conflict, once the server's time is known.
  pub execute_stale :
      (now : ℕ) (identity runner : Lease)
      → call.server_time ≡ some now
      → first (is_lease b.identity_lease_id) db.leases ≡ some identity
      → first (is_lease b.runner_lease_id) db.leases ≡ some runner
      → ((body.identity_lease_generation == identity.fencing_generation)
          && (body.runner_lease_generation == runner.fencing_generation))
        ≡ false
      → execute call action actor_id body r b db ≡ err fencing_conflict
  unfolding execute locked_lease
  execute_stale now identity runner time ei er stale =
      let attempt = first (is_attempt b.execution_attempt_id) db.attempts in
      rw (time, ei, er)
        (refused (assert_owner b identity runner attempt body) _
          (owner_error b identity runner attempt body)
          (rw (stale_generations b identity runner body stale) refl))
