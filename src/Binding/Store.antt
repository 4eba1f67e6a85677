-- ===== src/Binding/Store.antt =====
-- The tables of the binding service, its errors, and what it takes from libraries and from the
-- services that it is built of.
use ai_auto_test_platform.Prelude.{
  ℕ, String, Option, none, some, List, Error, Result, ok, err, platform_error, str_eq, Bool,
}
use ai_auto_test_platform.KeyRing.{KeyRing}
use ai_auto_test_platform.Idempotency.{Table}
use ai_auto_test_platform.Owner.Rows.{RunTask, ExecutionAttempt, Dict}
use ai_auto_test_platform.Owner.Session.{Session}
use ai_auto_test_platform.Owner.Transition.{AuditContext}
use ai_auto_test_platform.Runners.Rows.{Runner, Lease}
use ai_auto_test_platform.Runners.Slots.{first}
use ai_auto_test_platform.Runners.Slots.Discovery.{Authentication}
use ai_auto_test_platform.Binding.Rows.{
  Generation, Binding, BindingAudit, Role, UserRoleBinding, Policy, PolicyAudit, PolicyRequest,
  CommandRequest, BindingInput,
}
use ai_auto_test_platform.Binding.Facts.{Facts}

-- Newest rows first. `session` holds the events of the outbox and counts the values drawn.
pub record Store : Type 0 where
  pub generations : List Generation
  pub leases : List Lease
  pub bindings : List Binding
  pub attempts : List ExecutionAttempt
  pub tasks : List RunTask
  pub runners : List Runner
  pub roles : List Role
  pub user_roles : List UserRoleBinding
  pub policies : List Policy
  pub policy_audits : List PolicyAudit
  pub facts : Facts
  pub audits : List BindingAudit
  pub records : Table Dict
  pub session : Session

-- UTF-8, `hashlib.sha256` of bytes, its `hexdigest`, `repr` of a list of texts, and the JSON texts of
-- request bodies as bytes.
pub record Encoding : Type 0 where
  pub utf8 : String → List ℕ
  pub digest : List ℕ → String
  pub hexdigest : String → String
  pub repr : List String → String
  pub command_json : String → CommandRequest → List ℕ
  pub input_json : BindingInput → List ℕ
  pub policy_json : PolicyRequest → List ℕ

-- `__init__`: the services, with the key ring, the HMAC and the times of the two digests of a claim.
pub record Service : Type 1 where
  pub authentication : Authentication
  pub mac : List ℕ → String → List ℕ → String
  pub ring : KeyRing
  pub digests_at : ℕ
  pub printed_at : ℕ

-- The arguments of a request beside its body, and what its clocks read: `UTC_TIMESTAMP(6)`, which is
-- none when no time comes back, and `utc_now` at the claim and at the completion of the record.
pub record Call : Type 0 where
  pub bearer_token : String
  pub key : String
  pub context : AuditContext
  pub server_time : Option ℕ
  pub claimed_at : ℕ
  pub completed_at : ℕ

abbrev pub not_found : Error
not_found =
    platform_error 404 "EXECUTION_BINDING_NOT_FOUND"
      "The requested binding is unavailable in the authorized Project scope."

abbrev pub policy_not_found : Error
policy_not_found =
    platform_error 404 "RUNTIME_POLICY_REVISION_NOT_FOUND"
      "The requested Project or RuntimePolicy Revision is unavailable in scope."

abbrev pub state_conflict : String → Error
state_conflict detail = platform_error 409 "EXECUTION_BINDING_STATE_CONFLICT" detail

abbrev pub fencing_conflict : Error
fencing_conflict =
    platform_error 409 "RESOURCE_LEASE_FENCING_CONFLICT"
      "The lease owner, status, expiry, or fencing generation is no longer current."

abbrev pub concurrency_conflict : Error
concurrency_conflict =
    platform_error 409 "EXECUTION_BINDING_CONCURRENCY_CONFLICT"
      "expected_version does not match the current binding version."

abbrev pub time_unavailable : Error
time_unavailable =
    platform_error 503 "EXECUTION_BINDING_TIME_UNAVAILABLE"
      "MySQL server time is required for lease decisions."

abbrev pub recovery_forbidden : Error
recovery_forbidden =
    platform_error 403 "EXECUTION_BINDING_RECOVERY_FORBIDDEN"
      "Only a platform recovery administrator may recover a stale binding."

-- A query that must find a row: the row, or the error that is raised without one.
abbrev pub found {ℓ} : {A : Type ℓ} → Error → Option A → Result A
found e none = err e
found e (some a) = ok a

-- `_server_now`
abbrev pub server_now : Call → Result ℕ
server_now call = found time_unavailable call.server_time

abbrev pub is_lease : String → Lease → Bool
is_lease id lease = str_eq lease.resource_lease_id id

abbrev pub is_binding : String → Binding → Bool
is_binding id binding = str_eq binding.execution_binding_snapshot_id id

-- `_locked_lease`
unfoldable pub locked_lease : String → Store → Result Lease
locked_lease id db = found fencing_conflict (first (is_lease id) db.leases)

-- `_binding`
unfoldable pub binding_of : String → Store → Result Binding
binding_of id db = found not_found (first (is_binding id) db.bindings)
