-- ===== src/Binding/Policies.antt =====
-- Runtime policies of the binding service: `list_runtime_policies`, `create_runtime_policy`,
-- `_runtime_policy_event` and `_policy_resource`.
use Prim.Native.Char.{code}
use ai_auto_test_platform.Prelude.{
  ℕ, ◌+◌, max, String, Option, none, some, List, [], ◌∷◌, map, select, Bool, ◌&&◌, ◌==◌, leb,
  str_eq, if◌then◌else◌, Result, ok, ◌>>=◌, ◌>>◌, require,
}
use ai_auto_test_platform.Runtime.{Runtime}
use ai_auto_test_platform.Idempotency.{IdempotencyRecord, Claimed}
use ai_auto_test_platform.Owner.Rows.{Dict, OutboxEvent, published}
use ai_auto_test_platform.Owner.Session.{new_ulid, add_event, flush}
use ai_auto_test_platform.Runners.Rows.{Project}
use ai_auto_test_platform.Runners.Slots.{first}
use ai_auto_test_platform.Binding.Rows.{Policy, PolicyRequest, PolicyResource, PolicyAudit}
use ai_auto_test_platform.Binding.Store.{
  Store, Encoding, Service, Call, state_conflict, policy_not_found, found, server_now,
}
use ai_auto_test_platform.Binding.Resource.{is_policy}
use ai_auto_test_platform.Binding.Command.{complete_record, authenticated, claimed}
use ai_auto_test_platform.Binding.Preflight.Required.{dict_get}

-- `text.rstrip("/")`
unfoldable pub rstrip_slash : String → String
rstrip_slash String.[] = ""
rstrip_slash (String.◌∷◌ c s) =
    let rest = rstrip_slash s in if str_eq rest "" && code c == 47 then "" else String.◌∷◌ c rest

unfoldable pub policy_resource : Policy → PolicyResource
policy_resource p = record {
  runtime_policy_revision_id = p.runtime_policy_revision_id;
  project_id = p.project_id;
  revision_no = p.revision_no;
  browser_runtime = p.browser_runtime;
  artifact_policy = p.artifact_policy;
  timeout_seconds = p.timeout_seconds;
  max_steps = p.max_steps;
  total_exploration_timeout_seconds = p.total_exploration_timeout_seconds;
  model_transient_retry_per_step = p.model_transient_retry_per_step;
  allowed_origins = p.allowed_origins;
  authentication_redirect_origins = p.authentication_redirect_origins;
  retry_mode = p.retry_mode;
  network_requirement = p.network_requirement;
  serial_execution_policy = p.serial_execution_policy;
  lifecycle_status = p.lifecycle_status;
  row_version = p.row_version;
}

abbrev pub in_project : String → Policy → Bool
in_project project_id p = str_eq p.project_id project_id

abbrev pub is_published : String → Policy → Bool
is_published project_id p = in_project project_id p && str_eq p.lifecycle_status "PUBLISHED"

-- `ORDER BY revision_no DESC`
unfoldable pub insert_policy : Policy → List Policy → List Policy
insert_policy p [] = p ∷ []
insert_policy p (q ∷ qs) =
    let rest = insert_policy p qs in
    if leb q.revision_no p.revision_no then p ∷ q ∷ qs else q ∷ rest

unfoldable pub order_policies : List Policy → List Policy
order_policies [] = []
order_policies (p ∷ ps) = insert_policy p (order_policies ps)

-- `max(revision_no)`, with `or 0` for no row
unfoldable pub greatest : String → List Policy → ℕ
greatest project_id [] = 0
greatest project_id (p ∷ ps) =
    let rest = greatest project_id ps in
    if in_project project_id p then max p.revision_no rest else rest

unfoldable pub new_policy : PolicyRequest → ℕ → String → ℕ → String → Policy
new_policy body revision_no actor_id now id = record {
  runtime_policy_revision_id = id;
  project_id = body.project_id;
  revision_no = revision_no;
  browser_runtime = body.browser_runtime;
  artifact_policy = body.artifact_policy;
  timeout_seconds = body.timeout_seconds;
  max_steps = body.max_steps;
  total_exploration_timeout_seconds = body.total_exploration_timeout_seconds;
  model_transient_retry_per_step = body.model_transient_retry_per_step;
  allowed_origins = map rstrip_slash body.allowed_origins;
  authentication_redirect_origins = map rstrip_slash body.authentication_redirect_origins;
  retry_mode = body.retry_mode;
  network_requirement = body.network_requirement;
  serial_execution_policy = body.serial_execution_policy;
  lifecycle_status = "PUBLISHED";
  row_version = 1;
  created_at = now;
  updated_at = now;
  created_by = actor_id;
  updated_by = actor_id;
}

abbrev pub project_active : Project → Result (Unit {0})
project_active p =
    require (str_eq p.lifecycle_status "ACTIVE")
      (state_conflict "Only an ACTIVE Project can receive a RuntimePolicy Revision.")

-- `(record.response_json or {}).get("runtime_policy_revision_id", "")`
abbrev pub policy_id : Option Dict → String
policy_id none = ""
policy_id (some json) = text (dict_get "runtime_policy_revision_id" json)
  where
    text : Option String → String
    text none = ""
    text (some t) = t

module _ ⦃rt : Runtime⦄ where
  unfoldable pub policy_audit : Call → PolicyRequest → String → ℕ → Policy → String → PolicyAudit
  policy_audit call body actor_id now p id = record {
    audit_id = id;
    runtime_policy_revision_id = p.runtime_policy_revision_id;
    project_id = p.project_id;
    action = "CREATE_AND_PUBLISH";
    actor_user_id = actor_id;
    required_permission = "PROJECT_EDIT";
    previous_status = none;
    new_status = "PUBLISHED";
    result_code = "SUCCESS";
    reason = body.reason;
    policy_snapshot_json = policy_resource p;
    correlation_id = call.context.correlation_id;
    occurred_at = now;
    source_context_hash = rt.sha256 call.context.source_context;
  }

  -- The row that `_runtime_policy_event` adds.
  unfoldable pub policy_event : Call → String → ℕ → Policy → String → OutboxEvent
  policy_event call actor_id now p id = record {
    event_id = id;
    aggregate_id = p.runtime_policy_revision_id;
    sequence = 1;
    event_type = "project_runtime_policy_revision.published";
    payload_json = record {
      event_id = id;
      event_type = "project_runtime_policy_revision.published";
      event_version = "1.0.0";
      occurred_at = rt.isoformat now;
      aggregate_id = p.runtime_policy_revision_id;
      sequence = 1;
      correlation_id = call.context.correlation_id;
      causation_id = call.key;
      project_id = p.project_id;
      payload = published (record {
        runtime_policy_revision_id = p.runtime_policy_revision_id;
        project_id = p.project_id;
        revision_no = p.revision_no;
        changed_by = actor_id;
        change_summary =
            ("browser_runtime", p.browser_runtime)
            ∷ ("artifact_policy", p.artifact_policy)
            ∷ ("network_requirement", p.network_requirement)
            ∷ [];
      });
    };
    occurred_at = now;
    published_at = none;
    attempt_count = 0;
  }

  -- The policy with its audit row and event is written, and the record is completed.
  unfoldable pub publish :
      Call → PolicyRequest → String → ℕ → IdempotencyRecord Dict → Store → Policy × Store
  publish call body actor_id now r db =
      let (id, session) = new_ulid db.session in
      let p = new_policy body (greatest body.project_id db.policies + 1) actor_id now id in
      let (audit_id, session') = new_ulid (flush session) in
      let (event_id, session'') = new_ulid session' in
      (
        p,
        record db {
          policies = p ∷ db.policies;
          policy_audits = policy_audit call body actor_id now p audit_id ∷ db.policy_audits;
          session = flush (add_event (policy_event call actor_id now p event_id) session'');
          records = complete_record call 201 (("runtime_policy_revision_id", id) ∷ []) r db.records;
        },
      )

  unfoldable pub create_policy :
      Call
      → PolicyRequest
      → String
      → IdempotencyRecord Dict
      → Store
      → Result (PolicyResource × Store)
  create_policy call body actor_id r db =
      found policy_not_found
        (first (λ (p : Project). str_eq p.project_id body.project_id) db.facts.projects)
      >>= λ project.
          project_active project
          >> (server_now call >>= λ now.
              let (p, db') = publish call body actor_id now r db in ok (policy_resource p, db'))

module _ ⦃rt : Runtime⦄ ⦃enc : Encoding⦄ (service : Service) where
  open service use {authentication}

  unfoldable pub list_runtime_policies : Call → String → Store → Result (List PolicyResource)
  list_runtime_policies call project_id db =
      authenticated service call "list_project_runtime_policy_revisions" project_id "PROJECT_VIEW"
      >>= λ _.
          ok (map policy_resource (order_policies (select (is_published project_id) db.policies)))

  unfoldable pub create_policy_claimed :
      Call → PolicyRequest → String → Store → Claimed Dict → Result (PolicyResource × Store)
  create_policy_claimed call body actor_id db (r, (replay, records)) =
      let db' : Store = record db { records = records } in
      if replay
      then (found policy_not_found (first (is_policy (policy_id r.response_json)) db.policies)
          >>= λ p. ok (policy_resource p, db'))
      else create_policy call body actor_id r db'

  unfoldable pub create_runtime_policy :
      Call → PolicyRequest → Store → Result (PolicyResource × Store)
  create_runtime_policy call body db =
      authenticated service call "create_project_runtime_policy_revision" body.project_id
        "PROJECT_EDIT"
      >>= λ actor.
          claimed service call actor "create_project_runtime_policy_revision" (enc.policy_json body)
            db
          >>= λ claim. create_policy_claimed call body (authentication.user_id actor) db claim
