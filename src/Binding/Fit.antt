-- ===== src/Binding/Fit.antt =====
-- What a preflight that passes has found.
pub mod Total
use ai_auto_test_platform.Prelude.{
  ℕ, ◌≡◌, refl, String, Option, none, some, List, [], ◌∷◌, ◌++◌, map, All, Bool, true, false, not,
  ◌&&◌, str_eq, arith, if◌then◌else◌, Result, ok, err, ◌>>=◌, Ensures, Ensures-bind,
  Ensures-bind_eq, Ensures-if,
}
use ai_auto_test_platform.Runtime.{Runtime}
use ai_auto_test_platform.Runners.Readiness.{is_some}
use ai_auto_test_platform.Runners.Rows.{Capability}
use ai_auto_test_platform.Binding.Rows.{BindingInput}
use ai_auto_test_platform.Binding.Store.{Store, Encoding, Call, found, server_now}
use ai_auto_test_platform.Binding.Leases.{held, lease_available, resource_hash}
use ai_auto_test_platform.Binding.Carried.{found-some}
use ai_auto_test_platform.Binding.Preflight.{
  Found, find_rows, project_ready, environment_ready, terminal_ready, account_ready, attempt_ready,
  runner_ready, policy_ready,
}
use ai_auto_test_platform.Binding.Preflight.Required.{
  required, capabilities_of, code_of, to_set, is_subset,
}
use ai_auto_test_platform.Binding.Preflight.Resolve.{
  Check, check, check_of, conditions, row_checks, all_pass, capability_check, lease_checks,
  identity_resource_of, runner_resource_of, PreflightResult, Preflight, rejected, resolved,
  Resolved, result_of, resolved_of, conclude, resolve_preflight, assertion,
}

check-status :
    (code detail : String) (passed : Bool)
    → str_eq (check code passed detail).status "PASS" ≡ passed
unfolding check
check-status code detail true = refl
check-status code detail false = refl

abbrev Holds : String × (Bool × String) → Type 0
Holds (code, (passed, detail)) = passed ≡ true

all_pass-Holds :
    (cs : List (String × (Bool × String))) (rest : List Check)
    → all_pass (map check_of cs ++ rest) ≡ true
    → All Holds cs × (all_pass rest ≡ true)
all_pass-Holds [] rest e = (tt, e)
all_pass-Holds ((code, (passed, detail)) ∷ cs) rest e =
    ground (arith, check-status code detail passed, all_pass-Holds cs rest)

-- What the checks on the rows ask.
pub record AreReady (body : BindingInput) (f : Found) : Type 0 where
  pub project : project_ready f.project ≡ true
  pub environment : environment_ready f.environment ≡ true
  pub terminal : terminal_ready f.terminal ≡ true
  pub revision : is_some f.revision ≡ true
  pub strategy : is_some f.strategy ≡ true
  pub account : account_ready f.account ≡ true
  pub mapping : is_some f.mapping ≡ true
  pub credential : is_some f.credential ≡ true
  pub attempt : attempt_ready body f.attempt ≡ true
  pub runner : runner_ready f.project f.runner ≡ true
  pub resource : f.has_resource ≡ true
  pub policy : policy_ready f.policy ≡ true

pub rows-AreReady :
    (body : BindingInput) (f : Found) (rest : List Check)
    → all_pass (row_checks body f ++ rest) ≡ true
    → AreReady body f × (all_pass rest ≡ true)
unfolding row_checks
rows-AreReady body f rest e =
    let (h, last) = all_pass-Holds (conditions body f) rest e in
    let h₁ = h.1.1.1 in
    let h₂ = h₁.1.1.1 in
    let h₃ = h₂.1.1.1 in
    (
      record {
        project = h.0;
        environment = h.1.0;
        terminal = h.1.1.0;
        revision = h₁.0;
        strategy = h₁.1.0;
        account = h₁.1.1.0;
        mapping = h₂.0;
        credential = h₂.1.0;
        attempt = h₂.1.1.0;
        runner = h₃.0;
        resource = h₃.1.0;
        policy = h₃.1.1.0;
      },
      last,
    )

first-Holds :
    (code detail : String) (passed : Bool) (cs : List Check)
    → all_pass (check code passed detail ∷ cs) ≡ true
    → (passed ≡ true) × (all_pass cs ≡ true)
first-Holds code detail passed cs e = ground (arith, check-status code detail passed)

module _ ⦃enc : Encoding⦄ where
  -- The resource has a digest, and no active lease in the store.
  pub record IsFree (resource_type identity : String) (db : Store) : Type 0 where
    pub hash : String
    pub hash_is : resource_hash resource_type identity ≡ ok hash
    pub free : held resource_type hash db.leases ≡ false

  available-IsFree :
      (resource_type identity : String) (db : Store)
      → Ensures
          (λ a. a ≡ true → IsFree resource_type identity db)
          (lease_available resource_type identity db)
  unfolding lease_available
  available-IsFree resource_type identity db =
      Ensures-bind_eq (λ a. a ≡ true → IsFree resource_type identity db)
        (resource_hash resource_type identity) _
        λ hash e h. record { hash = hash; hash_is = e; free = ground (arith) }

  module _ (call : Call) (body : BindingInput) (db : Store) where
    abbrev AreFree : Found → Type 0
    AreFree f =
        IsFree "IDENTITY" (identity_resource_of body f.account) db
        × IsFree "RUNNER" (runner_resource_of body) db

    lease_checks-AreFree :
        (f : Found)
        → Ensures
            (λ leases. all_pass leases ≡ true → AreFree f)
            (lease_checks call body f.account db)
    unfolding lease_checks
    lease_checks-AreFree f =
        let P = λ (leases : List Check). all_pass leases ≡ true → AreFree f in
        let identity = identity_resource_of body f.account in
        Ensures-bind_eq P (server_now call) _ λ _ _.
          Ensures-bind (λ a. a ≡ true → IsFree "IDENTITY" identity db) P
            (lease_available "IDENTITY" identity db) _ (available-IsFree "IDENTITY" identity db)
            λ a free_i.
              Ensures-bind (λ a. a ≡ true → IsFree "RUNNER" (runner_resource_of body) db) P
                (lease_available "RUNNER" (runner_resource_of body) db) _
                (available-IsFree "RUNNER" (runner_resource_of body) db)
                λ a' free_r e.
                  let one =
                    first-Holds "IDENTITY_LEASE"
                      "The normalized identity already has an active or unrecovered lease." a
                      (check "RUNNER_LEASE" a'
                          "The selected Runner resource identity already has an active or unrecovered lease."
                        ∷ [])
                      e in
                  let two =
                    first-Holds "RUNNER_LEASE"
                      "The selected Runner resource identity already has an active or unrecovered lease."
                      a' [] one.1 in
                  (free_i one.0, free_r two.0)

    abbrev pub rows : Found
    rows = find_rows body db

    abbrev pub wanted : List String
    wanted = required body rows.terminal rows.policy

    abbrev pub found_codes : List String
    found_codes = to_set (map code_of (capabilities_of body rows.runner wanted db))

    -- `x` Holds the rows that the queries find; they pass every check, the runner has every capability
    -- that is required, and both resources are free.
    pub record IsFit (x : Resolved) : Type 0 where
      pub ready : AreReady body rows
      pub capabilities : is_subset wanted found_codes ≡ true
      pub free_identity : IsFree "IDENTITY" x.identity_resource db
      pub free_runner : IsFree "RUNNER" x.runner_resource db
      pub project : rows.project ≡ some x.project
      pub environment : rows.environment ≡ some x.environment
      pub terminal : rows.terminal ≡ some x.terminal
      pub revision : rows.revision ≡ some x.terminal_revision
      pub strategy : rows.strategy ≡ some x.login_strategy
      pub account : rows.account ≡ some x.account
      pub credential : rows.credential ≡ some x.credential
      pub mapping : rows.mapping ≡ some x.mapping
      pub runner : rows.runner ≡ some x.runner
      pub policy : rows.policy ≡ some x.policy
      pub attempt : rows.attempt ≡ some x.attempt

    -- A rejection has a check that failed.
    unfoldable pub Judged : Preflight → Type 0
    Judged (rejected result) = all_pass result.checks ≡ false
    Judged (resolved x) = IsFit x

    module _ ⦃rt : Runtime⦄ where
      resolved_of-IsFit :
          (result : PreflightResult) (capabilities : List Capability)
          → AreReady body rows
          → is_subset wanted found_codes ≡ true
          → AreFree rows
          → Ensures IsFit (resolved_of body rows result capabilities)
      unfolding resolved_of
      resolved_of-IsFit result capabilities ready subset free =
          Ensures-bind_eq IsFit (found assertion rows.project) _ λ project e₁.
            Ensures-bind_eq IsFit (found assertion rows.environment) _ λ environment e₂.
              Ensures-bind_eq IsFit (found assertion rows.terminal) _ λ terminal e₃.
                Ensures-bind_eq IsFit (found assertion rows.revision) _ λ revision e₄.
                  Ensures-bind_eq IsFit (found assertion rows.strategy) _ λ strategy e₅.
                    Ensures-bind_eq IsFit (found assertion rows.account) _ λ account e₆.
                      Ensures-bind_eq IsFit (found assertion rows.credential) _ λ credential e₇.
                        Ensures-bind_eq IsFit (found assertion rows.mapping) _ λ mapping e₈.
                          Ensures-bind_eq IsFit (found assertion rows.runner) _ λ runner e₉.
                            Ensures-bind_eq IsFit (found assertion rows.policy) _ λ policy e₁₀.
                              Ensures-bind_eq IsFit (found assertion rows.attempt) _ λ attempt e₁₁.
                                record {
                                  ready = ready;
                                  capabilities = subset;
                                  free_identity = free.0;
                                  free_runner = free.1;
                                  project = found-some assertion rows.project project e₁;
                                  environment =
                                      found-some assertion rows.environment environment e₂;
                                  terminal = found-some assertion rows.terminal terminal e₃;
                                  revision = found-some assertion rows.revision revision e₄;
                                  strategy = found-some assertion rows.strategy strategy e₅;
                                  account = found-some assertion rows.account account e₆;
                                  credential = found-some assertion rows.credential credential e₇;
                                  mapping = found-some assertion rows.mapping mapping e₈;
                                  runner = found-some assertion rows.runner runner e₉;
                                  policy = found-some assertion rows.policy policy e₁₀;
                                  attempt = found-some assertion rows.attempt attempt e₁₁;
                                }

      conclude-Judged :
          (capabilities : List Capability) (leases : List Check)
          → (all_pass leases ≡ true → AreFree rows)
          → Ensures Judged (
              conclude body rows capabilities found_codes
                (row_checks body rows ++ (capability_check wanted found_codes ∷ leases)))
      unfolding conclude Judged result_of
      conclude-Judged capabilities leases free =
          let checks = row_checks body rows ++ (capability_check wanted found_codes ∷ leases) in
          let result = result_of rows checks found_codes in
          Ensures-if Judged (all_pass checks)
            (resolved_of body rows result capabilities >>= λ r. ok (resolved r))
            (ok (rejected result))
            (λ passed.
              let (ready, more) =
                rows-AreReady body rows (capability_check wanted found_codes ∷ leases) passed in
              let (subset, last) =
                first-Holds "RUNNER_CAPABILITIES" _ (is_subset wanted found_codes) leases more in
              Ensures-bind IsFit Judged (resolved_of body rows result capabilities) _
                (resolved_of-IsFit result capabilities ready subset (free last)) λ x fit. fit)
            (λ failed. failed)

      -- A preflight that passes returns rows that the store has, each in the state that its check asks,
      -- with every required capability at the runner and with no active lease of either resource; a
      -- preflight that is rejected has a check that failed.
      pub resolve-Judged : Ensures Judged (resolve_preflight call body db)
      unfolding resolve_preflight
      resolve-Judged =
          Ensures-bind (λ leases. all_pass leases ≡ true → AreFree rows) Judged
            (lease_checks call body rows.account db) _ (lease_checks-AreFree rows)
            λ leases free. conclude-Judged (capabilities_of body rows.runner wanted db) leases free
