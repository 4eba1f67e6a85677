-- ===== src/Binding/Preflight/Resolve.antt =====
-- The result of a preflight: `_check` and the rest of `_resolve_preflight`.
use ai_auto_test_platform.Prelude.{
  ℕ, String, Option, none, some, List, [], ◌∷◌, ◌++◌, map, Bool, true, ◌&&◌, str_eq, if◌then◌else◌,
  concat, Result, ok, ◌>>=◌, Error, runtime_error,
}
use ai_auto_test_platform.Runtime.{Runtime}
use ai_auto_test_platform.Owner.Rows.{ExecutionAttempt}
use ai_auto_test_platform.Runners.Readiness.{is_some}
use ai_auto_test_platform.Runners.Rows.{Runner, Capability, Project}
use ai_auto_test_platform.Binding.Rows.{BindingInput, Policy, CapabilityFact}
use ai_auto_test_platform.Binding.Facts.{
  Environment, Terminal, AccessRevision, LoginStrategy, TestAccount, Mapping, AccountCredential,
}
use ai_auto_test_platform.Binding.Store.{Store, Encoding, Call, found, server_now}
use ai_auto_test_platform.Binding.Leases.{lease_available}
use ai_auto_test_platform.Binding.Preflight.{
  Found, find_rows, project_ready, environment_ready, terminal_ready, account_ready, attempt_ready,
  runner_ready, policy_ready,
}
use ai_auto_test_platform.Binding.Preflight.Required.{
  required, capabilities_of, code_of, to_set, is_subset, difference, sorted, sort_by, fact_of,
}

-- `PreflightCheck`, whose status is "PASS" or "FAIL"
pub record Check : Type 0 where
  pub code : String
  pub status : String
  pub detail : String

unfoldable pub check : String → Bool → String → Check
check code passed detail = record {
  code = code;
  status = if passed then "PASS" else "FAIL";
  detail = if passed then "Ready." else detail;
}

-- The arguments of the calls of `_check` on the rows, in order: code, condition and detail.
abbrev pub conditions : BindingInput → Found → List (String × (Bool × String))
conditions body f =
    ("PROJECT", ((project_ready f.project), "Project must exist and be ACTIVE."))
    ∷ (
      "ENVIRONMENT",
      (
        (environment_ready f.environment),
        "Environment must belong to the Project and be ACTIVE and ENABLED.",
      ),
    )
    ∷ (
      "BUSINESS_TERMINAL",
      (
        (terminal_ready f.terminal),
        "Business Terminal must be ACTIVE with a current published revision.",
      ),
    )
    ∷ (
      "TERMINAL_ACCESS_REVISION",
      ((is_some f.revision), "The current Terminal Access Revision must be PUBLISHED."),
    )
    ∷ ("LOGIN_STRATEGY", ((is_some f.strategy), "A current ACTIVE Login Strategy is required."))
    ∷ (
      "TEST_ACCOUNT",
      ((account_ready f.account), "Test Account must be ACTIVE with a VALID credential state."),
    )
    ∷ (
      "ACCOUNT_MAPPING",
      (
        (is_some f.mapping),
        "A PUBLISHED Test Account mapping to the Business Terminal is required.",
      ),
    )
    ∷ (
      "CREDENTIAL_REVISION",
      ((is_some f.credential), "A PUBLISHED Credential Revision is required."),
    )
    ∷ (
      "EXECUTION_ATTEMPT",
      (
        (attempt_ready body f.attempt),
        "Execution Attempt must own the Project, Runner, root RunTask identity, and no Binding.",
      ),
    )
    ∷ (
      "RUNNER",
      (
        (runner_ready f.project f.runner),
        "Runner must be ACTIVE, enabled, bound, online, healthy, compatible, and heartbeating.",
      ),
    )
    ∷ (
      "RUNNER_RESOURCE_IDENTITY",
      (
        f.has_resource,
        "Runner resource identity must be an ACTIVE slot or validated session capability.",
      ),
    )
    ∷ (
      "RUNTIME_POLICY",
      (
        (policy_ready f.policy),
        "A PUBLISHED Project RuntimePolicy Revision with serial execution is required.",
      ),
    )
    ∷ []

abbrev pub check_of : String × (Bool × String) → Check
check_of (code, (passed, detail)) = check code passed detail

unfoldable pub row_checks : BindingInput → Found → List Check
row_checks body f = map check_of (conditions body f)

-- `PreflightResult`
pub record PreflightResult : Type 0 where
  pub ready : Bool
  pub checks : List Check
  pub terminal_access_revision_id : Option String
  pub login_strategy_id : Option String
  pub login_strategy_row_version : Option ℕ
  pub credential_revision_id : Option String
  pub account_mapping_revision_id : Option String
  pub sso_identity_key : Option String
  pub runner_capability_codes : List String

-- `_ResolvedPreflight`
pub record Resolved : Type 0 where
  pub result : PreflightResult
  pub project : Project
  pub environment : Environment
  pub terminal : Terminal
  pub terminal_revision : AccessRevision
  pub login_strategy : LoginStrategy
  pub account : TestAccount
  pub credential : AccountCredential
  pub mapping : Mapping
  pub runner : Runner
  pub policy : Policy
  pub attempt : ExecutionAttempt
  pub capability_snapshot : List CapabilityFact
  pub identity_resource : String
  pub runner_resource : String

-- `_PreflightRejected` is the one outcome, what is returned the other.
pub data Preflight : Type 0 where
  rejected : PreflightResult → Preflight
  resolved : Resolved → Preflight

abbrev pub all_pass : List Check → Bool
all_pass [] = true
all_pass (c ∷ cs) = str_eq c.status "PASS" && all_pass cs

-- `account.sso_identity_id or account.test_account_id`
abbrev pub sso_key : Option TestAccount → String
sso_key none = ""
sso_key (some a) = key a.sso_identity_id
  where
    key : Option String → String
    key none = a.test_account_id
    key (some id) = if str_eq id "" then a.test_account_id else id

abbrev pub mapped {ℓ κ} : {A : Type ℓ} {B : Type κ} → (A → B) → Option A → Option B
mapped f none = none
mapped f (some a) = some (f a)

-- The `assert` at the end, whose failure is an AssertionError.
abbrev pub assertion : Error
assertion = runtime_error "AssertionError"

module _ ⦃enc : Encoding⦄ where
  abbrev pub identity_resource_of : BindingInput → Option TestAccount → String
  identity_resource_of body account =
      concat body.project_id
        (concat ":" (concat body.environment_id (concat ":" (enc.hexdigest (sso_key account)))))

  abbrev pub runner_resource_of : BindingInput → String
  runner_resource_of body =
      concat body.runner_id
        (concat ":" (concat body.runner_resource_type (concat ":" body.runner_resource_identity)))

  abbrev pub capability_check : List String → List String → Check
  capability_check wanted codes = check "RUNNER_CAPABILITIES" (is_subset wanted codes) (
      concat "Runner is missing required capabilities: "
        (enc.repr (sorted (difference wanted codes))))

  unfoldable pub lease_checks :
      Call → BindingInput → Option TestAccount → Store → Result (List Check)
  lease_checks call body account db = server_now call >>= λ _.
      lease_available "IDENTITY" (identity_resource_of body account) db >>= λ identity_available.
      lease_available "RUNNER" (runner_resource_of body) db >>= λ runner_available. ok (
        check "IDENTITY_LEASE" identity_available
          "The normalized identity already has an active or unrecovered lease."
        ∷ check "RUNNER_LEASE" runner_available
            "The selected Runner resource identity already has an active or unrecovered lease."
        ∷ [])

  unfoldable pub result_of : Found → List Check → List String → PreflightResult
  result_of f checks codes = record {
    ready = all_pass checks;
    checks = checks;
    terminal_access_revision_id =
        mapped (λ (r : AccessRevision). r.environment_terminal_access_revision_id) f.revision;
    login_strategy_id = mapped (λ (s : LoginStrategy). s.login_strategy_id) f.strategy;
    login_strategy_row_version = mapped (λ (s : LoginStrategy). s.row_version) f.strategy;
    credential_revision_id =
        mapped (λ (c : AccountCredential). c.credential_revision_id) f.credential;
    account_mapping_revision_id = mapped (λ (m : Mapping). m.account_mapping_revision_id) f.mapping;
    sso_identity_key =
        if str_eq (sso_key f.account) "" then none else some (enc.hexdigest (sso_key f.account));
    runner_capability_codes = sorted codes;
  }

  module _ ⦃rt : Runtime⦄ where
    -- The asserts, and what is returned.
    unfoldable pub resolved_of :
        BindingInput → Found → PreflightResult → List Capability → Result Resolved
    resolved_of body f result capabilities = found assertion f.project >>= λ project.
        found assertion f.environment >>= λ environment. found assertion f.terminal >>= λ terminal.
        found assertion f.revision >>= λ revision. found assertion f.strategy >>= λ strategy.
        found assertion f.account >>= λ account. found assertion f.credential >>= λ credential.
        found assertion f.mapping >>= λ mapping. found assertion f.runner >>= λ runner.
        found assertion f.policy >>= λ policy. found assertion f.attempt >>= λ attempt. ok (record {
          result = result;
          project = project;
          environment = environment;
          terminal = terminal;
          terminal_revision = revision;
          login_strategy = strategy;
          account = account;
          credential = credential;
          mapping = mapping;
          runner = runner;
          policy = policy;
          attempt = attempt;
          capability_snapshot = map fact_of (sort_by code_of capabilities);
          identity_resource = identity_resource_of body f.account;
          runner_resource = runner_resource_of body;
        })

    unfoldable pub conclude :
        BindingInput → Found → List Capability → List String → List Check → Result Preflight
    conclude body f capabilities codes checks =
        let result = result_of f checks codes in
        if result.ready
        then (resolved_of body f result capabilities >>= λ r. ok (resolved r))
        else ok (rejected result)

    -- `_resolve_preflight` with `check_leases`, as every caller has it.
    unfoldable pub resolve_preflight : Call → BindingInput → Store → Result Preflight
    resolve_preflight call body db =
        let f = find_rows body db in
        let wanted = required body f.terminal f.policy in
        let capabilities = capabilities_of body f.runner wanted db in
        let codes = to_set (map code_of capabilities) in
        lease_checks call body f.account db >>= λ leases.
        conclude body f capabilities codes
          (row_checks body f ++ (capability_check wanted codes ∷ leases))
