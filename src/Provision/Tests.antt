-- ===== src/Provision/Tests.antt =====
-- The theorem on the numbers of attempts at concrete requests for two attempts of one task.
use ai_auto_test_platform.Prelude.{
  length, map, List, ℕ, zero, suc, ◌≡◌, refl, none, some, [], ◌∷◌, ok, concat, String,
}
use ai_auto_test_platform.KeyRing.{MasterKey}
use ai_auto_test_platform.Owner.Rows.{RunTask, ExecutionAttempt}
use ai_auto_test_platform.Runners.Versions.{codes}
use ai_auto_test_platform.Runners.Rows.{Runner}
use ai_auto_test_platform.Runners.Slots.{first}
use ai_auto_test_platform.Runners.Readiness.{accept_blockers, base_blockers}
use ai_auto_test_platform.Provision.Served.{serve}
use ai_auto_test_platform.Provision.Attempts.Commands.{update_execution_attempt}
use ai_auto_test_platform.Provision.Attempts.Commands.{create_execution_attempt}
use ai_auto_test_platform.Provision.Guards.{required_id}
use ai_auto_test_platform.Provision.Store.{authenticated}
use ai_auto_test_platform.Idempotency.Commands.{claim_command}
use ai_auto_test_platform.Idempotency.Framing.{framed}
use ai_auto_test_platform.Idempotency.Framing.{frame}
use ai_auto_test_platform.Idempotency.Commands.{hex_digests}
use ai_auto_test_platform.KeyRing.{digests}
use ai_auto_test_platform.KeyRing.{digest_all}
use ai_auto_test_platform.KeyRing.{accepted_at}
use ai_auto_test_platform.KeyRing.{digest}
use ai_auto_test_platform.Idempotency.{claim}
use ai_auto_test_platform.Idempotency.{act}
use ai_auto_test_platform.Idempotency.{look}
use ai_auto_test_platform.Idempotency.{insert_ignore}
use ai_auto_test_platform.Provision.Guards.{optional_reference}
use ai_auto_test_platform.Provision.Guards.{optional_lease}
use ai_auto_test_platform.Idempotency.Framing.{word}
use ai_auto_test_platform.Owner.Session.{flush}
use ai_auto_test_platform.Provision.Attempts.{update_fresh}
use ai_auto_test_platform.Provision.Guards.{assert_all_unchanged}
use ai_auto_test_platform.Runners.Slots.{update_first}
use ai_auto_test_platform.Binding.Samples.{ulid_text}
use ai_auto_test_platform.Binding.Samples.{runtime, before, runner, task}
use ai_auto_test_platform.Provision.Requests.{References, CreateAttempt, UpdateAttempt}
use ai_auto_test_platform.Provision.Store.{Store, Texts, Service, Call, audit, event}
use ai_auto_test_platform.Provision.Guards.{validate_references}
use ai_auto_test_platform.Provision.Attempts.{
  create_fresh, insert_attempt, new_attempt, next_number, blockers_of,
}
use ai_auto_test_platform.Provision.Numbers.{IsNumbered}
use ai_auto_test_platform.Provision.Served.{
  Request, creates_attempt, updates_attempt, serve_all, serve_all-IsNumbered,
}

unfoldable strokes : ℕ → String
strokes zero = ""
strokes (suc n) = concat "I" (strokes n)

instance abbrev texts : Texts
texts = record {
  utf8 = codes;
  hexdigest = λ s. s;
  str = strokes;
  create_task_json = λ body. [];
  update_task_json = λ id body. [];
  create_attempt_json = λ body. [];
  update_attempt_json = λ id body. [];
}

abbrev master_key : MasterKey
master_key = record {
  key_id = "1";
  material = [];
  activated_at = 1;
  retired_at = none;
  accept_until = none;
}

abbrev service : Service
service = record {
  authentication = record {
    Actor = String;
    user_id = λ actor. actor;
    authenticate = λ token operation. ok token;
    require_permissions = λ actor operation permissions project_id. ok tt;
    authorized_project_ids = λ actor permission. none;
  };
  mac = λ material domain value. strokes (length value);
  ring = record { ring_version = "v1"; active_key_id = "1"; keys = master_key ∷ [] };
  digests_at = 5;
  printed_at = 5;
}

abbrev call : Call
call = record {
  token = "user";
  key = "key";
  context = record { correlation_id = "c"; source_context = "s" };
  claimed_at = 5;
  now = 5;
  completed_at = 6;
}

abbrev long_task : RunTask
long_task = record task { run_task_id = "TTTTTTTTTTTTTTTTTTTTTTTTTT" }

abbrev long_runner : Runner
long_runner = record runner { runner_id = "RRRRRRRRRRRRRRRRRRRRRRRRRR" }

abbrev references : References
references = record {
  run_task_id = some "TTTTTTTTTTTTTTTTTTTTTTTTTT";
  attempt_no = none;
  case_attempt_id = none;
  runner_id = some "RRRRRRRRRRRRRRRRRRRRRRRRRR";
  configuration_snapshot_id = none;
  execution_batch_id = none;
  lease_id = none;
  execution_lock_id = none;
}

abbrev body : CreateAttempt
body = record {
  expected_version = none;
  reason = none;
  execution_attempt_id = none;
  display_name = none;
  references = references;
}

abbrev rename : UpdateAttempt
rename = record {
  expected_version = 0;
  reason = none;
  display_name = some "first";
  references = references;
}

abbrev store : Store
store = record {
  tasks = long_task ∷ [];
  attempts = [];
  projects = record { project_id = "project"; lifecycle_status = "ACTIVE" } ∷ [];
  environments = [];
  runners = long_runner ∷ [];
  leases = [];
  referenced = λ table. [];
  records = λ key. none;
  session = before.session;
}

abbrev requests : List Request
requests =
    creates_attempt call body
    ∷ creates_attempt (record call { key = "another" }) body
    ∷ updates_attempt (record call { key = "rename" }) "U" rename
    ∷ []

served-numbers :
    map (λ (a : ExecutionAttempt). a.attempt_no) (serve_all service requests store).attempts
    ≡ some "II" ∷ some "I" ∷ []
unfolding serve_all serve update_execution_attempt first create_execution_attempt required_id
    authenticated claim_command framed frame hex_digests digests digest_all accepted_at digest claim
    act look insert_ignore create_fresh blockers_of accept_blockers base_blockers
    validate_references optional_reference optional_lease insert_attempt strokes word new_attempt
    ulid_text flush event audit update_fresh assert_all_unchanged update_first next_number
served-numbers = refl

serve_all-IsNumbered_example : IsNumbered (serve_all service requests store).attempts
serve_all-IsNumbered_example = serve_all-IsNumbered service requests store tt
