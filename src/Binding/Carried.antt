-- ===== src/Binding/Carried.antt =====
-- What it means that a binding command was carried out: what it found, and what passed its guards.
use ai_auto_test_platform.Prelude.{
  ℕ, ◌≡◌, refl, subst, String, Option, none, some, List, Bool, true, false, str_eq, eq_iff, arith,
  Bool-cases, inl, inr, ok, Ensures, Ensures-bind_eq, Error,
}
use ai_auto_test_platform.Runtime.{Runtime}
use ai_auto_test_platform.Idempotency.{IdempotencyRecord}
use ai_auto_test_platform.Owner.Rows.{ExecutionAttempt, Dict}
use ai_auto_test_platform.Runners.Rows.{Lease}
use ai_auto_test_platform.Runners.Slots.{first}
use ai_auto_test_platform.Binding.Rows.{Binding, CommandRequest}
use ai_auto_test_platform.Binding.Store.{
  Store, Call, found, fencing_conflict, time_unavailable, server_now, is_lease, locked_lease,
  binding_of,
}
use ai_auto_test_platform.Binding.Guards.{
  is_bound, is_identity_owner, is_runner_owner, assert_owner, assert_generations,
}
use ai_auto_test_platform.Binding.Actions.{Action, Effect, act}
use ai_auto_test_platform.Binding.Resource.{BindingResource, resource}
use ai_auto_test_platform.Binding.Command.{change_of, finish, execute}

abbrev pub is_attempt : String → ExecutionAttempt → Bool
is_attempt id a = str_eq a.execution_attempt_id id

-- The attempt, the request and the leases name one owner, and the generations are those of the leases.
pub record IsOwner (b : Binding) (identity runner : Lease) (attempt : ExecutionAttempt)
    (body : CommandRequest) : Type 0 where
  pub of_binding : is_bound b attempt body ≡ true
  pub of_identity : is_identity_owner attempt identity ≡ true
  pub of_runner : is_runner_owner b runner ≡ true

pub record IsCurrent (b : Binding) (identity runner : Lease) (body : CommandRequest) : Type 0 where
  pub asked_identity : body.identity_lease_generation ≡ identity.fencing_generation
  pub asked_runner : body.runner_lease_generation ≡ runner.fencing_generation
  pub bound_identity : b.identity_lease_generation ≡ identity.fencing_generation
  pub bound_runner : b.runner_lease_generation ≡ runner.fencing_generation

pub found-some : {A : Type 0} (e : Error) (o : Option A) (a : A) → found e o ≡ ok a → o ≡ some a
found-some e none a h = cc
found-some e (some x) a h = cc

module _ (b : Binding) (identity runner : Lease) (body : CommandRequest) where
  assert_owner-IsOwner :
      (attempt : Option ExecutionAttempt)
      → assert_owner b identity runner attempt body ≡ ok tt
      → (a : ExecutionAttempt) × ((attempt ≡ some a) × IsOwner b identity runner a body)
  unfolding assert_owner
  assert_owner-IsOwner none e = cc
  assert_owner-IsOwner (some a) e = (
    a,
    (
      refl,
      record {
        of_binding = ground (arith);
        of_identity = ground (arith);
        of_runner = ground (arith);
      },
    ),
  )

  assert_generations-IsCurrent :
      assert_generations b identity runner body ≡ ok tt → IsCurrent b identity runner body
  unfolding assert_generations
  assert_generations-IsCurrent e = record {
    asked_identity = ground (arith);
    asked_runner = ground (arith);
    bound_identity = ground (arith);
    bound_runner = ground (arith);
  }

-- The two leases of an owner are two rows, since their owners are of two types.
pub two_rows :
    (b : Binding) (identity runner : Lease) (attempt : ExecutionAttempt) (body : CommandRequest)
    (leases : List Lease)
    → first (is_lease b.identity_lease_id) leases ≡ some identity
    → first (is_lease b.runner_lease_id) leases ≡ some runner
    → IsOwner b identity runner attempt body
    → str_eq b.identity_lease_id b.runner_lease_id ≡ false
two_rows b identity runner attempt body leases fi fr owner =
    elim (Bool-cases (str_eq b.identity_lease_id b.runner_lease_id)) [
      | inl same ↦
          let ids : b.identity_lease_id ≡ b.runner_lease_id =
            (eq_iff b.identity_lease_id b.runner_lease_id).0 same in
          let rows : runner ≡ identity = cc (fi, fr, ids) in
          let identity_type : str_eq identity.owner_type "FORMAL_ROOT_EXECUTION_TASK" ≡ true =
            ground (arith, owner.of_identity) in
          let runner_type : str_eq runner.owner_type "EXECUTION_ATTEMPT" ≡ true =
            ground (arith, owner.of_runner) in
          let formal : identity.owner_type ≡ "FORMAL_ROOT_EXECUTION_TASK" =
            (eq_iff identity.owner_type "FORMAL_ROOT_EXECUTION_TASK").0 identity_type in
          let both : str_eq identity.owner_type "EXECUTION_ATTEMPT" ≡ true =
            subst (λ (l : Lease). str_eq l.owner_type "EXECUTION_ATTEMPT" ≡ true) rows
              runner_type in
          let no : false ≡ true = subst (λ t. str_eq t "EXECUTION_ATTEMPT" ≡ true) formal both in cc
      | inr other ↦ other
    ]

module _ ⦃rt : Runtime⦄ (call : Call) (action : Action) (actor_id : String) (body : CommandRequest)
    (r : IdempotencyRecord Dict) (b : Binding) (db : Store) where
  pub record Carried (db' : Store) : Type 0 where
    pub now : ℕ
    pub identity : Lease
    pub runner : Lease
    pub attempt : ExecutionAttempt
    pub effect : Effect
    pub time : call.server_time ≡ some now
    pub found_identity : first (is_lease b.identity_lease_id) db.leases ≡ some identity
    pub found_runner : first (is_lease b.runner_lease_id) db.leases ≡ some runner
    pub found_attempt : first (is_attempt b.execution_attempt_id) db.attempts ≡ some attempt
    pub owner : IsOwner b identity runner attempt body
    pub current : IsCurrent b identity runner body
    pub acted :
        act action db actor_id
          (some attempt)
          body
          now
          (record { binding = b; identity = identity; runner = runner })
        ≡ ok effect
    pub after : db' ≡ finish call (change_of action actor_id body now b) r b effect db

  abbrev pub Done : BindingResource × Store → Type 0
  Done (_, db') = Carried db'

  pub execute-Carried : Ensures Done (execute call action actor_id body r b db)
  unfolding execute locked_lease
  execute-Carried = Ensures-bind_eq Done (server_now call) _ λ now time.
      Ensures-bind_eq Done (locked_lease b.identity_lease_id db) _ λ identity e_identity.
        Ensures-bind_eq Done (locked_lease b.runner_lease_id db) _ λ runner e_runner.
          let attempt = first (is_attempt b.execution_attempt_id) db.attempts in
          Ensures-bind_eq Done (assert_owner b identity runner attempt body) _ λ _ e_owner.
            Ensures-bind_eq Done (assert_generations b identity runner body) _ λ _ e_current.
              Ensures-bind_eq Done
                (act action db actor_id attempt body now
                  (record { binding = b; identity = identity; runner = runner }))
                _
                λ effect acted.
                  let (a, (e_attempt, owner)) =
                    assert_owner-IsOwner b identity runner body attempt e_owner in
                  let db' = finish call (change_of action actor_id body now b) r b effect db in
                  let carried : Carried db' = record {
                    now = now;
                    identity = identity;
                    runner = runner;
                    attempt = a;
                    effect = effect;
                    time = found-some time_unavailable call.server_time now time;
                    found_identity =
                        found-some fencing_conflict (first (is_lease b.identity_lease_id) db.leases)
                          identity e_identity;
                    found_runner =
                        found-some fencing_conflict (first (is_lease b.runner_lease_id) db.leases)
                          runner e_runner;
                    found_attempt = e_attempt;
                    owner = owner;
                    current = assert_generations-IsCurrent b identity runner body e_current;
                    acted = rw (← e_attempt) acted;
                    after = refl;
                  } in
                  Ensures-bind_eq Done (binding_of b.execution_binding_snapshot_id db') _
                    λ b' _. Ensures-bind_eq Done (resource db' b') _ λ res _. carried

  pub two_leases :
      (db' : Store) → Carried db' → str_eq b.identity_lease_id b.runner_lease_id ≡ false
  two_leases db' c =
      two_rows b c.identity c.runner c.attempt body db.leases c.found_identity c.found_runner
        c.owner
