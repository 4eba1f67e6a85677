-- ===== src/Binding/Fit/Total.antt =====
-- A preflight always comes to a result: its asserts hold.
use ai_auto_test_platform.Prelude.{
  ℕ, ◌≡◌, refl, String, Option, none, some, List, ◌∷◌, ◌++◌, Bool, true, false, ok, ◌>>=◌, Returns,
  Returns-if, Returns-bind, Returns-Ensures,
}
use ai_auto_test_platform.Runtime.{Runtime}
use ai_auto_test_platform.Runners.Readiness.{is_some}
use ai_auto_test_platform.Runners.Rows.{Capability}
use ai_auto_test_platform.Binding.Rows.{BindingInput}
use ai_auto_test_platform.Binding.Store.{Store, Encoding, Call}
use ai_auto_test_platform.Binding.Leases.{lease_available, resource_hash}
use ai_auto_test_platform.Binding.Preflight.{
  Found, project_ready, environment_ready, terminal_ready, account_ready, attempt_ready,
  runner_ready, policy_ready,
}
use ai_auto_test_platform.Binding.Preflight.Required.{capabilities_of}
use ai_auto_test_platform.Binding.Preflight.Resolve.{
  Check, row_checks, all_pass, capability_check, lease_checks, identity_resource_of,
  runner_resource_of, PreflightResult, rejected, resolved, result_of, resolved_of, conclude,
  resolve_preflight,
}
use ai_auto_test_platform.Binding.Fit.{
  AreReady, rows-AreReady, rows, wanted, found_codes, Judged, resolve-Judged,
}

abbrev HasRow {ℓ} : {A : Type ℓ} → Option A → Type ℓ
HasRow {A = A} o = (a : A) × (o ≡ some a)

some_of : {A : Type 0} (o : Option A) → is_some o ≡ true → HasRow o
some_of none e = cc
some_of (some a) e = (a, refl)

-- A test that no row fails has a row when it passes.
some_of_test :
    {A : Type 0} (test : Option A → Bool) (o : Option A)
    → test none ≡ false
    → test o ≡ true
    → HasRow o
some_of_test test none out e = cc
some_of_test test (some a) out e = (a, refl)

module _ ⦃enc : Encoding⦄ ⦃rt : Runtime⦄ (body : BindingInput) (f : Found) where
  asserts_hold :
      (result : PreflightResult) (capabilities : List Capability)
      → AreReady body f
      → Returns (λ _. Unit {0}) (resolved_of body f result capabilities)
  unfolding resolved_of
  asserts_hold result capabilities ready =
      let (project, e₁) = some_of_test project_ready f.project refl ready.project in
      let (environment, e₂) = some_of_test environment_ready f.environment refl ready.environment in
      let (terminal, e₃) = some_of_test terminal_ready f.terminal refl ready.terminal in
      let (revision, e₄) = some_of f.revision ready.revision in
      let (strategy, e₅) = some_of f.strategy ready.strategy in
      let (account, e₆) = some_of_test account_ready f.account refl ready.account in
      let (credential, e₇) = some_of f.credential ready.credential in
      let (mapping, e₈) = some_of f.mapping ready.mapping in
      let (runner, e₉) = some_of_test (runner_ready f.project) f.runner refl ready.runner in
      let (policy, e₁₀) = some_of_test policy_ready f.policy refl ready.policy in
      let (attempt, e₁₁) = some_of_test (attempt_ready body) f.attempt refl ready.attempt in
      rw (e₁, e₂, e₃, e₄, e₅, e₆, e₇, e₈, e₉, e₁₀, e₁₁) tt

  conclude_returns :
      (capabilities : List Capability) (codes : List String) (rest : List Check)
      → Returns (λ _. Unit {0}) (conclude body f capabilities codes (row_checks body f ++ rest))
  unfolding conclude result_of
  conclude_returns capabilities codes rest =
      let checks = row_checks body f ++ rest in
      let result = result_of f checks codes in
      Returns-if (λ _. Unit {0}) (all_pass checks)
        (resolved_of body f result capabilities >>= λ r. ok (resolved r)) (ok (rejected result))
        (λ passed.
          Returns-bind (λ _. Unit {0}) (λ _. Unit {0}) (resolved_of body f result capabilities) _
            (asserts_hold result capabilities (rows-AreReady body f rest passed).0) λ x _. tt)
        (λ failed. tt)

module _ ⦃enc : Encoding⦄ ⦃rt : Runtime⦄ (call : Call) (body : BindingInput) (db : Store) where
  -- With a server time and the digests of the two resources, a preflight always comes to a result: it
  -- passes, with rows that the store has, each in the state that its check asks, with every required
  -- capability at the runner and with no active lease of either resource; or it is rejected, and a
  -- check has failed. Its asserts never fail.
  pub resolve_preflight-Judged :
      (now : ℕ) (identity_hash runner_hash : String)
      → call.server_time ≡ some now
      → resource_hash "IDENTITY" (identity_resource_of body (rows call body db).account)
        ≡ ok identity_hash
      → resource_hash "RUNNER" (runner_resource_of body) ≡ ok runner_hash
      → Returns (Judged call body db) (resolve_preflight call body db)
  unfolding resolve_preflight lease_checks lease_available
  resolve_preflight-Judged now identity_hash runner_hash time e₁ e₂ =
      let f = rows call body db in
      let codes = found_codes call body db in
      let leases_return : Returns (λ _. Unit {0}) (lease_checks call body f.account db) =
        rw (time, e₁, e₂) tt in
      let total : Returns (λ _. Unit {0}) (resolve_preflight call body db) =
        Returns-bind (λ _. Unit {0}) (λ _. Unit {0}) (lease_checks call body f.account db) _
          leases_return
          λ leases _.
            conclude_returns body f (capabilities_of body f.runner (wanted call body db) db) codes
              (capability_check (wanted call body db) codes ∷ leases) in
      Returns-Ensures (Judged call body db) (resolve_preflight call body db) total
        (resolve-Judged call body db)
