-- ===== src/Binding/Actions.antt =====
-- What each binding command does to the binding and its two leases: the branches of `command`.
use ai_auto_test_platform.Prelude.{
  ℕ, ◌+◌, String, Option, none, some, Bool, true, not, ◌||◌, leb, str_eq, if◌then◌else◌, Result, ok,
  ◌>>=◌, ◌>>◌, require,
}
use ai_auto_test_platform.Owner.Rows.{ExecutionAttempt}
use ai_auto_test_platform.Runners.Readiness.{is_some}
use ai_auto_test_platform.Runners.Rows.{Runner, Lease}
use ai_auto_test_platform.Runners.Slots.{first}
use ai_auto_test_platform.Binding.Rows.{Binding, CommandRequest}
use ai_auto_test_platform.Binding.Store.{Store, state_conflict}
use ai_auto_test_platform.Binding.Leases.{seconds, identity_ttl, runner_ttl, expire_lease}
use ai_auto_test_platform.Binding.Guards.{
  is_live, assert_recoverable_status, assert_version, assert_active_leases, release_active_leases,
  require_recovery_role,
}

pub data Action : Type 0 where
  consume renew release recover : Action

-- The keys of the table of operations, where none is no operation.
unfoldable pub action_of : String → Option Action
action_of text =
    if str_eq text "consume"
    then some consume
    else if str_eq text "renew"
    then some renew
    else if str_eq text "release"
    then some release
    else if str_eq text "recover"
    then some recover
    else none

-- `action.upper()`
abbrev pub audit_action : Action → String
audit_action consume = "CONSUME"
audit_action renew = "RENEW"
audit_action release = "RELEASE"
audit_action recover = "RECOVER"

abbrev pub operation_of : Action → String
operation_of consume = "consume_execution_binding_snapshot"
operation_of renew = "renew_execution_binding_snapshot_leases"
operation_of release = "release_execution_binding_snapshot"
operation_of recover = "recover_execution_binding_snapshot"

abbrev pub event_of : Action → String
event_of consume = "execution_binding_snapshot.in_use"
event_of renew = "execution_binding_snapshot.leases_renewed"
event_of release = "execution_binding_snapshot.released"
event_of recover = "execution_binding_snapshot.expired"

-- The binding with its two leases.
pub record Held : Type 0 where
  pub binding : Binding
  pub identity : Lease
  pub runner : Lease

-- A command that finds the binding released before changes nothing; any other changes the rows.
pub data Effect : Type 0 where
  settled : Effect
  moved : Held → Effect

abbrev pub renewed : ℕ → ℕ → Lease → Lease
renewed ttl now lease = record lease {
  expires_at = now + seconds ttl;
  row_version = lease.row_version + 1;
  updated_at = now;
}

abbrev pub consume_held : CommandRequest → ℕ → Held → Result Effect
consume_held body now h =
    assert_version h.binding body.expected_version
    >> (assert_active_leases h.identity h.runner now
        >> (require (str_eq h.binding.status "READY")
              (state_conflict "Only a READY binding can be consumed.")
            >> ok (moved (record h { binding = record h.binding { status = "IN_USE" } }))))

abbrev pub renew_held : CommandRequest → ℕ → Held → Result Effect
renew_held body now h =
    assert_version h.binding body.expected_version
    >> (assert_active_leases h.identity h.runner now
        >> (require (is_live h.binding)
              (state_conflict "Only READY or IN_USE bindings can renew leases.")
            >> ok (
                moved (record h {
                  identity = renewed identity_ttl now h.identity;
                  runner = renewed runner_ttl now h.runner;
                }))))

abbrev pub release_live : CommandRequest → ℕ → Held → Result Effect
release_live body now h =
    assert_version h.binding body.expected_version
    >> (require (is_live h.binding)
          (state_conflict "Only READY or IN_USE bindings can be released.")
        >> (release_active_leases h.identity h.runner now >>= λ (identity, runner). ok (
            moved (record {
              binding = record h.binding { status = "RELEASED"; released_at = some now };
              identity = identity;
              runner = runner;
            }))))

abbrev pub release_held : CommandRequest → ℕ → Held → Result Effect
release_held body now h =
    if str_eq h.binding.status "RELEASED" then ok settled else release_live body now h

-- `execution_status in {"ABORTED", ...}`
abbrev pub is_terminal : String → Bool
is_terminal s =
    str_eq s "ABORTED"
    || (str_eq s "BROKEN" || (str_eq s "CANCELLED" || (str_eq s "FAILED" || str_eq s "SUCCEEDED")))

abbrev pub is_offline : Option Runner → Bool
is_offline none = true
is_offline (some r) = not (str_eq r.connection_status "ONLINE")

abbrev pub has_ended : Option ExecutionAttempt → Bool
has_ended none = true
has_ended (some a) = is_terminal a.execution_status

unfoldable pub is_stale : Store → Option ExecutionAttempt → ℕ → Held → Bool
is_stale db attempt now h =
    (leb h.identity.expires_at now || leb h.runner.expires_at now)
    || (is_offline (first (λ (r : Runner). str_eq r.runner_id h.binding.runner_id) db.runners)
        || has_ended attempt)

abbrev pub recover_held :
    Store → String → Option ExecutionAttempt → CommandRequest → ℕ → Held → Result Effect
recover_held db user_id attempt body now h =
    require (is_some body.recovery_evidence) (state_conflict "Recovery evidence is required.")
    >> (assert_recoverable_status h.binding
        >> (assert_version h.binding body.expected_version
            >> (require_recovery_role db user_id now
                >> (require (is_stale db attempt now h) (
                      state_conflict
                        "Recovery requires expired leases, an unavailable Runner, or a terminal execution attempt.")
                    >> ok (
                        moved (record {
                          binding = record h.binding { status = "EXPIRED"; expired_at = some now };
                          identity = expire_lease now h.identity;
                          runner = expire_lease now h.runner;
                        }))))))

unfoldable pub act :
    Action → Store → String → Option ExecutionAttempt → CommandRequest → ℕ → Held → Result Effect
act consume db user_id attempt body now h = consume_held body now h
act renew db user_id attempt body now h = renew_held body now h
act release db user_id attempt body now h = release_held body now h
act recover db user_id attempt body now h = recover_held db user_id attempt body now h
