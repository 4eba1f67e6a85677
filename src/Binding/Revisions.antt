-- ===== src/Binding/Revisions.antt =====
-- The revision numbers of the runtime policies of a project.
use ai_auto_test_platform.Prelude.{
  ℕ, ◌≡◌, ◌+◌, ◌≤◌, ◌<◌, String, List, [], ◌∷◌, All, All-mono, true, arith, Bool-cases, inl, inr,
  str_eq, Ensures, Ensures-bind_eq,
}
use ai_auto_test_platform.Runtime.{Runtime}
use ai_auto_test_platform.Idempotency.{IdempotencyRecord}
use ai_auto_test_platform.Owner.Rows.{Dict}
use ai_auto_test_platform.Runners.Rows.{Project}
use ai_auto_test_platform.Runners.Slots.{first}
use ai_auto_test_platform.Binding.Rows.{Policy, PolicyRequest, PolicyResource}
use ai_auto_test_platform.Binding.Store.{Store, Call, policy_not_found, found, server_now}
use ai_auto_test_platform.Binding.Lookup.{Pairwise}
use ai_auto_test_platform.Binding.Policies.{
  in_project, greatest, new_policy, publish, project_active, create_policy,
}

-- The newer of two policies of one project has the higher number.
abbrev pub IsLater : Policy → Policy → Type 0
IsLater p q = in_project p.project_id q ≡ true → q.revision_no < p.revision_no

-- Newest policies first.
abbrev pub AreRevised : List Policy → Type 0
AreRevised = Pairwise IsLater

greatest-own :
    (project_id : String) (p : Policy) (ps : List Policy)
    → in_project project_id p ≡ true
    → p.revision_no ≤ greatest project_id (p ∷ ps)
unfolding greatest
greatest-own project_id p ps e = grind arith

greatest-older :
    (project_id : String) (p : Policy) (ps : List Policy) (n : ℕ)
    → n ≤ greatest project_id ps
    → n ≤ greatest project_id (p ∷ ps)
unfolding greatest
greatest-older project_id p ps n h = elim (Bool-cases (in_project project_id p)) [
  | inl c ↦ rw c (omega arith)
  | inr c ↦ rw c h
]

greatest-bounds :
    (project_id : String) (policies : List Policy)
    → All
        (λ (q : Policy).
          in_project project_id q ≡ true → q.revision_no ≤ greatest project_id policies)
        policies
unfolding greatest
greatest-bounds project_id [] = tt
greatest-bounds project_id (p ∷ ps) = (
  λ e. greatest-own project_id p ps e,
  All-mono _ _ ps (λ q h e. greatest-older project_id p ps q.revision_no (h e))
      (greatest-bounds project_id ps),
)

below : (n : ℕ) (q : Policy) → q.revision_no ≤ n → q.revision_no < n + 1
below n q h = omega arith

module _ ⦃rt : Runtime⦄ (call : Call) (body : PolicyRequest) (actor_id : String)
    (r : IdempotencyRecord Dict) (db : Store) where
  -- A new runtime policy has a higher number than each earlier one of its project, so no two
  -- policies of one project have the same number.
  pub create_policy-AreRevised :
      AreRevised db.policies
      → Ensures
          (λ (out : PolicyResource × Store). AreRevised out.1.policies)
          (create_policy call body actor_id r db)
  unfolding create_policy publish new_policy
  create_policy-AreRevised h =
      Ensures-bind_eq (λ (out : PolicyResource × Store). AreRevised out.1.policies)
        (found policy_not_found
          (first (λ (p : Project). str_eq p.project_id body.project_id) db.facts.projects))
        _
        λ project _.
          Ensures-bind_eq (λ (out : PolicyResource × Store). AreRevised out.1.policies)
            (project_active project) _
            λ _ _.
              Ensures-bind_eq (λ (out : PolicyResource × Store). AreRevised out.1.policies)
                (server_now call) _
                λ now _. (
                  All-mono _ _ db.policies
                      (λ q bound own. below (greatest body.project_id db.policies) q (bound own))
                      (greatest-bounds body.project_id db.policies),
                  h,
                )
