-- ===== src/Binding/Guards.antt =====
-- The guards of a binding command: `_assert_generations`, `_assert_owner`,
-- `_assert_recoverable_status`, `_assert_version`, `_assert_active_leases`, `_release_active_leases`
-- and `_require_recovery_role`.
use ai_auto_test_platform.Prelude.{
  ℕ, String, Option, none, some, any, Bool, true, ◌&&◌, ◌||◌, ltb, leb, ◌==◌, str_eq, Result, ok,
  err, ◌>>=◌, ◌>>◌, require,
}
use ai_auto_test_platform.Owner.Rows.{ExecutionAttempt}
use ai_auto_test_platform.Runners.Readiness.{is_text}
use ai_auto_test_platform.Runners.Rows.{Lease}
use ai_auto_test_platform.Binding.Rows.{Binding, CommandRequest, Role, UserRoleBinding}
use ai_auto_test_platform.Binding.Store.{
  Store, fencing_conflict, state_conflict, concurrency_conflict, recovery_forbidden,
}
use ai_auto_test_platform.Binding.Leases.{is_active, release_lease}

unfoldable pub assert_generations : Binding → Lease → Lease → CommandRequest → Result (Unit {0})
assert_generations binding identity runner body =
    require
      (body.identity_lease_generation == binding.identity_lease_generation
        && (body.runner_lease_generation == binding.runner_lease_generation
            && (identity.fencing_generation == binding.identity_lease_generation
                && runner.fencing_generation == binding.runner_lease_generation)))
      fencing_conflict

-- The attempt points at the binding, and its task is the owner that the request and the binding name.
abbrev pub is_bound : Binding → ExecutionAttempt → CommandRequest → Bool
is_bound binding attempt body =
    is_text attempt.execution_binding_snapshot_id binding.execution_binding_snapshot_id
    && (str_eq body.owner_execution_identity binding.owner_execution_identity
        && is_text attempt.run_task_id binding.owner_execution_identity)

abbrev pub is_identity_owner : ExecutionAttempt → Lease → Bool
is_identity_owner attempt identity =
    str_eq identity.owner_type "FORMAL_ROOT_EXECUTION_TASK"
    && is_text attempt.run_task_id identity.owner_id

abbrev pub is_runner_owner : Binding → Lease → Bool
is_runner_owner binding runner =
    str_eq runner.owner_type "EXECUTION_ATTEMPT"
    && str_eq runner.owner_id binding.execution_attempt_id

unfoldable pub assert_owner :
    Binding → Lease → Lease → Option ExecutionAttempt → CommandRequest → Result (Unit {0})
assert_owner binding identity runner none body = err fencing_conflict
assert_owner binding identity runner (some attempt) body =
    require (is_bound binding attempt body) fencing_conflict
    >> (require (is_identity_owner attempt identity) fencing_conflict
        >> require (is_runner_owner binding runner) fencing_conflict)

-- `binding.status in {"READY", "IN_USE"}`
abbrev pub is_live : Binding → Bool
is_live binding = str_eq binding.status "READY" || str_eq binding.status "IN_USE"

abbrev pub assert_recoverable_status : Binding → Result (Unit {0})
assert_recoverable_status binding =
    require (is_live binding) (state_conflict "Only READY or IN_USE bindings can be recovered.")

abbrev pub assert_version : Binding → ℕ → Result (Unit {0})
assert_version binding expected = require (binding.row_version == expected) concurrency_conflict

abbrev pub is_current : ℕ → Lease → Bool
is_current now lease = is_active lease && ltb now lease.expires_at

unfoldable pub assert_active_leases : Lease → Lease → ℕ → Result (Unit {0})
assert_active_leases identity runner now =
    require (is_current now identity && is_current now runner) fencing_conflict

unfoldable pub release_active_leases : Lease → Lease → ℕ → Result (Lease × Lease)
release_active_leases identity runner now =
    assert_active_leases identity runner now
    >> (release_lease now identity >>= λ identity'.
        release_lease now runner >>= λ runner'. ok (identity', runner'))

abbrev pub is_valid : ℕ → UserRoleBinding → Bool
is_valid now grant = leb grant.valid_from now && until grant.valid_to
  where
    until : Option ℕ → Bool
    until none = true
    until (some t) = ltb now t

abbrev pub is_recovery_role : String → Role → Bool
is_recovery_role id role =
    str_eq role.role_id id
    && (str_eq role.lifecycle_status "ACTIVE"
        && (str_eq role.role_code "ROLE-SUPER-ADMIN"
            || str_eq role.role_code "ROLE-PLATFORM-ADMIN"))

unfoldable pub may_recover : Store → String → ℕ → Bool
may_recover db user_id now =
    any
      (λ (grant : UserRoleBinding).
        str_eq grant.user_id user_id
        && (is_valid now grant && any (is_recovery_role grant.role_id) db.roles))
      db.user_roles

abbrev pub require_recovery_role : Store → String → ℕ → Result (Unit {0})
require_recovery_role db user_id now = require (may_recover db user_id now) recovery_forbidden
