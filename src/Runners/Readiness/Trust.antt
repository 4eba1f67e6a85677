-- ===== src/Runners/Readiness/Trust.antt =====
-- What the blockers mean.
use ai_auto_test_platform.Prelude.{
  String, Option, none, some, List, [], ◌∷◌, Bool, true, false, ◌||◌, ◌≡◌, refl, ap, sym, ◌∙◌, All,
  ◌⊎◌, ◌↔◌, ◌≢◌, str_eq, eq_iff, arith, if◌then◌else◌,
}
use ai_auto_test_platform.Runners.Rows.{Runner}
use ai_auto_test_platform.Runners.Readiness.{
  base_checks, base_blockers, failing, accept_blockers, resource_blockers,
  resolve_scheduling_status, resource_to_scheduling, is_empty, is_text, is_some,
  new_execution_scheduling, new_execution_resources,
}

-- What a Runner that may execute at all must be.
pub record IsTrusted (runner : Runner) (project : Option String) : Type 0 where
  pub project_active : project ≡ some "ACTIVE"
  pub active : runner.lifecycle_status ≡ "ACTIVE"
  pub registered : runner.registration_status ≡ "REGISTERED"
  pub enabled : runner.enable_status ≡ "ENABLED"
  pub bound : runner.project_binding_status ≡ "BOUND"
  pub online : runner.connection_status ≡ "ONLINE"
  pub healthy : runner.health_status ≡ "HEALTHY"
  pub heartbeat : runner.last_heartbeat_at ≢ none
  pub compatible : runner.version_compatibility ≡ "COMPATIBLE"

failing-nil : (checks : List (Bool × String)) → failing checks ≡ [] → All (λ c. c.0 ≡ true) checks
unfolding failing
failing-nil [] h = tt
failing-nil ((true, detail) ∷ checks) h = (refl, failing-nil checks h)
failing-nil ((false, detail) ∷ checks) h = cc

failing-passed :
    (checks : List (Bool × String)) → All (λ c. c.0 ≡ true) checks → failing checks ≡ []
unfolding failing
failing-passed [] h = refl
failing-passed ((true, detail) ∷ checks) h = failing-passed checks h.1
failing-passed ((false, detail) ∷ checks) h = cc h.0

text : (s t : String) → str_eq s t ≡ true → s ≡ t
text s t = (eq_iff s t).0

is_text-some : (o : Option String) (t : String) → is_text o t ≡ true → o ≡ some t
is_text-some none t h = cc
is_text-some (some s) t h = ap some (text s t h)

is_some-ne-none {ℓ} : {A : Type ℓ} (o : Option A) → is_some o ≡ true → o ≢ none
is_some-ne-none none h e = cc
is_some-ne-none (some a) h e = cc

ne-none-is_some {ℓ} : {A : Type ℓ} (o : Option A) → o ≢ none → is_some o ≡ true
ne-none-is_some none h = absurd (h refl)
ne-none-is_some (some a) h = refl

base_blockers-IsTrusted :
    (runner : Runner) (project : Option String)
    → base_blockers runner project ≡ []
    → IsTrusted runner project
unfolding base_blockers
base_blockers-IsTrusted runner project h =
    let passed = failing-nil (base_checks runner project) h in
    record {
      project_active = is_text-some project "ACTIVE" passed.0;
      active = text _ _ passed.1.0;
      registered = text _ _ passed.1.1.0;
      enabled = text _ _ passed.1.1.1.0;
      bound = text _ _ passed.1.1.1.1.0;
      online = text _ _ passed.1.1.1.1.1.0;
      healthy = text _ _ passed.1.1.1.1.1.1.0;
      heartbeat = is_some-ne-none runner.last_heartbeat_at passed.1.1.1.1.1.1.1.0;
      compatible = text _ _ passed.1.1.1.1.1.1.1.1.0;
    }

IsTrusted-base_blockers :
    (runner : Runner) (project : Option String)
    → IsTrusted runner project
    → base_blockers runner project ≡ []
unfolding base_blockers
IsTrusted-base_blockers runner project t = failing-passed (base_checks runner project) (
  rw t.project_active refl,
  (
    (eq_iff _ _).1 t.active,
    (
      (eq_iff _ _).1 t.registered,
      (
        (eq_iff _ _).1 t.enabled,
        (
          (eq_iff _ _).1 t.bound,
          (
            (eq_iff _ _).1 t.online,
            (
              (eq_iff _ _).1 t.healthy,
              (
                ne-none-is_some runner.last_heartbeat_at t.heartbeat,
                ((eq_iff _ _).1 t.compatible, tt),
              ),
            ),
          ),
        ),
      ),
    ),
  ),
)

-- Nothing blocks a bound execution exactly when the Project is ACTIVE and the Runner is ACTIVE,
-- REGISTERED, ENABLED, BOUND, ONLINE, HEALTHY and COMPATIBLE and has sent a heartbeat.
pub base_blockers_iff :
    (runner : Runner) (project : Option String)
    → (base_blockers runner project ≡ []) ↔ IsTrusted runner project
base_blockers_iff runner project =
    (base_blockers-IsTrusted runner project, IsTrusted-base_blockers runner project)

-- What a Runner that may take a new execution must be on top of that.
pub record HasCapacity (runner : Runner) : Type 0 where
  pub scheduling :
      (runner.scheduling_status ≡ "IDLE") ⊎ (runner.scheduling_status ≡ "PARTIALLY_OCCUPIED")
  pub resource :
      (runner.resource_status ≡ "AVAILABLE") ⊎ (runner.resource_status ≡ "PARTIALLY_OCCUPIED")

accept-HasCapacity : (runner : Runner) → resource_blockers runner ≡ [] → HasCapacity runner
unfolding resource_blockers
accept-HasCapacity runner h = record {
  scheduling = ground (
    arith,
    eq_iff runner.scheduling_status "IDLE",
    eq_iff runner.scheduling_status "PARTIALLY_OCCUPIED",
  );
  resource = ground (
    arith,
    eq_iff runner.resource_status "AVAILABLE",
    eq_iff runner.resource_status "PARTIALLY_OCCUPIED",
  );
}

HasCapacity-accept : (runner : Runner) → HasCapacity runner → resource_blockers runner ≡ []
unfolding resource_blockers
HasCapacity-accept runner c = ground (
  arith,
  eq_iff runner.scheduling_status "IDLE",
  eq_iff runner.scheduling_status "PARTIALLY_OCCUPIED",
  eq_iff runner.resource_status "AVAILABLE",
  eq_iff runner.resource_status "PARTIALLY_OCCUPIED",
)

accept_cases :
    (base resource : List String)
    → ((if is_empty base then resource else base) ≡ []) ↔ ((base ≡ []) × (resource ≡ []))
accept_cases [] resource = ((λ h. (refl, h)), λ h. h.1)
accept_cases (b ∷ base) resource = ((λ h. cc), λ h. cc (h.0))

-- A new execution is admitted exactly when the Runner is trusted, its scheduling status is IDLE or
-- PARTIALLY_OCCUPIED and its resource status AVAILABLE or PARTIALLY_OCCUPIED.
pub accept_blockers_iff :
    (runner : Runner) (project : Option String)
    → (accept_blockers runner project ≡ []) ↔ (IsTrusted runner project × HasCapacity runner)
unfolding accept_blockers
accept_blockers_iff runner project =
    let cases = accept_cases (base_blockers runner project) (resource_blockers runner) in
    (
      (λ h. (
        base_blockers-IsTrusted runner project (cases.0 h).0,
        accept-HasCapacity runner (cases.0 h).1,
      )),
      λ h. cases.1 (IsTrusted-base_blockers runner project h.0, HasCapacity-accept runner h.1),
    )

is_empty-eq : (l : List String) → is_empty l ≡ true → l ≡ []
is_empty-eq [] h = refl
is_empty-eq (x ∷ l) h = cc

picked :
    (available partial exhausted reclaiming : Bool)
    → new_execution_scheduling (
        if available
        then "IDLE"
        else if partial
        then "PARTIALLY_OCCUPIED"
        else if exhausted
        then "BUSY"
        else if reclaiming
        then "DRAINING"
        else "UNSCHEDULABLE")
      ≡ true
    → (available || partial) ≡ true
picked true partial exhausted reclaiming h = refl
picked false true exhausted reclaiming h = refl
picked false false true reclaiming h = cc h
picked false false false true h = cc h
picked false false false false h = cc h

resolved_capacity :
    (b : Bool) (resource : String)
    → new_execution_scheduling (if b then resource_to_scheduling resource else "UNSCHEDULABLE")
      ≡ true
    → (b ≡ true) × (new_execution_resources resource ≡ true)
unfolding resource_to_scheduling
resolved_capacity true resource h = (
  refl,
  picked (str_eq resource "AVAILABLE") (str_eq resource "PARTIALLY_OCCUPIED")
      (str_eq resource "EXHAUSTED") (str_eq resource "RECLAIMING") h,
)
resolved_capacity false resource h = cc h

either_text : (s t u : String) → (s ≡ t) ⊎ (s ≡ u) → (str_eq s t || str_eq s u) ≡ true
either_text s t u h = ground (arith, eq_iff s t, eq_iff s u)

no_blockers :
    (runner : Runner)
    → new_execution_scheduling runner.scheduling_status ≡ true
    → new_execution_resources runner.resource_status ≡ true
    → resource_blockers runner ≡ []
unfolding resource_blockers
no_blockers runner s r = rw (s, r) refl

-- Where the stored scheduling status is the one that `resolve_scheduling_status` computes, a Runner
-- is admitted for new work exactly if that status is IDLE or PARTIALLY_OCCUPIED: the projection and
-- the admission never disagree.
pub scheduling_agrees :
    (runner : Runner) (project : Option String)
    → runner.scheduling_status ≡ resolve_scheduling_status runner project
    → (accept_blockers runner project ≡ [])
      ↔ ((runner.scheduling_status ≡ "IDLE") ⊎ (runner.scheduling_status ≡ "PARTIALLY_OCCUPIED"))
unfolding resolve_scheduling_status accept_blockers
scheduling_agrees runner project e = (
  (λ h. ((accept_blockers_iff runner project).0 h).1.scheduling),
  λ h.
      let new = either_text runner.scheduling_status "IDLE" "PARTIALLY_OCCUPIED" h in
      let can =
        resolved_capacity (is_empty (base_blockers runner project)) runner.resource_status
          (ap new_execution_scheduling (sym e) ∙ new) in
      (accept_cases (base_blockers runner project) (resource_blockers runner)).1
        (is_empty-eq _ can.0, no_blockers runner new can.1),
)
