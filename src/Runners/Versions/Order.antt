-- ===== src/Runners/Versions/Order.antt =====
-- The comparison of versions and the compatibility that follows from it.
use Prim.Native.Nat.{Ordering}
use mathlib.Core.Option
use ai_auto_test_platform.Prelude.{
  String, ℕ, ◌-◌, max, ◌≡◌, refl, ap, subst, true, false, str_eq, eq_iff, ◌↔◌, Option, none, some,
  List, [], ◌∷◌, ◌++◌, length, arith,
}
use ai_auto_test_platform.Runners.Rows.{Capability}
use ai_auto_test_platform.Runners.Versions.{
  Unicode, codes, supported_agent_version, supported_playwright_version, pad, tuple_compare,
  compare_parts, compare_numeric_versions, compare_parsed, numeric_version, by_code, observed,
  strip, text_or_none, compatible, verdict, judge, resolve_observed, resolve_version_compatibility,
}
use ai_auto_test_platform.Runners.Versions.Components.{SameComponents, compare_parts_eq}

abbrev pub flip : Ordering → Ordering
flip Ordering.lt = Ordering.gt
flip Ordering.eq = Ordering.eq
flip Ordering.gt = Ordering.lt

tuple_compare-flip : (xs ys : List ℕ) → tuple_compare ys xs ≡ flip (tuple_compare xs ys)
unfolding tuple_compare
tuple_compare-flip [] [] = refl
tuple_compare-flip [] (y ∷ ys) = refl
tuple_compare-flip (x ∷ xs) [] = refl
tuple_compare-flip (x ∷ xs) (y ∷ ys) = ground (arith, tuple_compare-flip xs ys)

compare_parts-flip : (xs ys : List ℕ) → compare_parts ys xs ≡ flip (compare_parts xs ys)
unfolding compare_parts
compare_parts-flip xs ys =
    let width : max (length ys) (length xs) ≡ max (length xs) (length ys) = omega arith in
    rw width (
      tuple_compare-flip (xs ++ pad (max (length xs) (length ys) - length xs))
        (ys ++ pad (max (length xs) (length ys) - length ys)))

-- Comparing two version texts in the other order gives the opposite answer, and gives none exactly
-- where the first order gives none.
pub compare_numeric_versions-flip :
    ⦃u : Unicode⦄ (left right : List ℕ)
    → compare_numeric_versions right left ≡ Option.map flip (compare_numeric_versions left right)
unfolding compare_numeric_versions
compare_numeric_versions-flip left right = go (numeric_version left) (numeric_version right)
  where
    go : (l r : Option (List ℕ)) → compare_parsed r l ≡ Option.map flip (compare_parsed l r)
    go none none = refl
    go none (some r) = refl
    go (some l) none = refl
    go (some l) (some r) = ap some (compare_parts-flip l r)

-- The last capability of the code is CONFIGURED, ACTIVE and VALID, its version and the supported one
-- are numeric, and their components are equal.
pub record IsSupported ⦃u : Unicode⦄ (code supported : String) (capabilities : List Capability)
    : Type 0 where
  pub capability : Capability
  pub version : String
  pub parts : List ℕ
  pub wanted : List ℕ
  pub last : by_code code capabilities ≡ some capability
  pub configured : capability.availability_status ≡ "CONFIGURED"
  pub active : capability.lifecycle_status ≡ "ACTIVE"
  pub valid : capability.validation_status ≡ "VALID"
  pub reported : capability.observed_version ≡ some version
  pub given : str_eq version "" ≡ false
  pub parsed : numeric_version (strip (codes version)) ≡ some parts
  pub parsed_wanted : numeric_version (codes supported) ≡ some wanted
  pub same : SameComponents parts wanted

-- A capability whose version is read.
record IsUsable ⦃u : Unicode⦄ (capability : Capability) (text : List ℕ) : Type 0 where
  version : String
  configured : capability.availability_status ≡ "CONFIGURED"
  active : capability.lifecycle_status ≡ "ACTIVE"
  valid : capability.validation_status ≡ "VALID"
  reported : capability.observed_version ≡ some version
  given : str_eq version "" ≡ false
  stripped : text ≡ strip (codes version)

text_or_none-some :
    ⦃u : Unicode⦄ (v : Option String) (text : List ℕ)
    → text_or_none v ≡ some text
    → (version : String) × ((v ≡ some version)
        × ((str_eq version "" ≡ false) × (text ≡ strip (codes version))))
unfolding text_or_none
text_or_none-some none text e = cc
text_or_none-some (some v) text e = (v, (refl, (ground (arith), ground (arith))))

observed-IsUsable :
    ⦃u : Unicode⦄ (found : Option Capability) (text : List ℕ)
    → observed found ≡ some text
    → (c : Capability) × ((found ≡ some c) × IsUsable c text)
unfolding observed
observed-IsUsable none text e = cc
observed-IsUsable (some c) text e =
    let a : str_eq c.availability_status "CONFIGURED" ≡ true = ground (arith) in
    let l : str_eq c.lifecycle_status "ACTIVE" ≡ true = ground (arith) in
    let v : str_eq c.validation_status "VALID" ≡ true = ground (arith) in
    let (version, (reported, (given, stripped))) =
      text_or_none-some c.observed_version text (ground (arith)) in
    (
      c,
      (
        refl,
        record {
          version = version;
          configured = (eq_iff _ _).0 a;
          active = (eq_iff _ _).0 l;
          valid = (eq_iff _ _).0 v;
          reported = reported;
          given = given;
          stripped = stripped;
        },
      ),
    )

IsSupported-observed :
    ⦃u : Unicode⦄ (code supported : String) (capabilities : List Capability)
    → (s : IsSupported code supported capabilities)
    → observed (by_code code capabilities) ≡ some (strip (codes s.version))
unfolding observed text_or_none
IsSupported-observed code supported capabilities s =
    rw (s.last, s.configured, s.active, s.valid, s.reported, s.given) refl

judge_compatible :
    (a p : Option Ordering)
    → judge a p ≡ compatible
    → (a ≡ some Ordering.eq) × (p ≡ some Ordering.eq)
unfolding judge verdict
judge_compatible none p h = cc
judge_compatible (some a) none h = cc
judge_compatible (some a) (some p) h = ground arith

module _ ⦃u : Unicode⦄ where
  parsed_eq :
      (l r : Option (List ℕ))
      → compare_parsed l r ≡ some Ordering.eq
      → (xs ys : List ℕ) × (l ≡ some xs) × (r ≡ some ys) × SameComponents xs ys
  unfolding compare_parsed
  parsed_eq none r h = cc
  parsed_eq (some l) none h = cc
  parsed_eq (some l) (some r) h =
      let e : compare_parts l r ≡ Ordering.eq = cc h in
      (l, r, refl, refl, (compare_parts_eq l r).0 e)

  resolve_observed_compatible :
      (a p : Option (List ℕ))
      → resolve_observed a p ≡ compatible
      → (t v : List ℕ) × (a ≡ some t)
        × (p ≡ some v)
        × (compare_numeric_versions t (codes supported_agent_version) ≡ some Ordering.eq)
        × (compare_numeric_versions v (codes supported_playwright_version) ≡ some Ordering.eq)
  unfolding resolve_observed
  resolve_observed_compatible none p h = cc
  resolve_observed_compatible (some a) none h = cc
  resolve_observed_compatible (some a) (some p) h =
      let both = judge_compatible _ _ h in (a, p, refl, refl, both.0, both.1)

  supported :
      (code wanted : String) (capabilities : List Capability) (t : List ℕ)
      → observed (by_code code capabilities) ≡ some t
      → compare_numeric_versions t (codes wanted) ≡ some Ordering.eq
      → IsSupported code wanted capabilities
  unfolding compare_numeric_versions
  supported code wanted capabilities t usable h =
      let (xs, ys, l, r, same) = parsed_eq (numeric_version t) (numeric_version (codes wanted)) h in
      let (c, (last, usage)) = observed-IsUsable (by_code code capabilities) t usable in
      record {
        capability = c;
        version = usage.version;
        parts = xs;
        wanted = ys;
        last = last;
        configured = usage.configured;
        active = usage.active;
        valid = usage.valid;
        reported = usage.reported;
        given = usage.given;
        parsed = subst (λ k. numeric_version k ≡ some xs) usage.stripped l;
        parsed_wanted = r;
        same = same;
      }

  supported_compares :
      (code wanted : String) (capabilities : List Capability)
      → (s : IsSupported code wanted capabilities)
      → compare_numeric_versions (strip (codes s.version)) (codes wanted) ≡ some Ordering.eq
  unfolding compare_numeric_versions compare_parsed
  supported_compares code wanted capabilities s =
      rw (s.parsed, s.parsed_wanted) (ap some ((compare_parts_eq s.parts s.wanted).1 s.same))

  -- A Runner is COMPATIBLE exactly when its last AGENT_VERSION and PLAYWRIGHT_VERSION capabilities
  -- are both CONFIGURED, ACTIVE and VALID with a numeric version, and each has the components of the
  -- supported version, missing ones counted as 0.
  pub resolve_compatible_iff :
      (capabilities : List Capability)
      → (resolve_version_compatibility capabilities ≡ compatible) ↔ (
          IsSupported "AGENT_VERSION" supported_agent_version capabilities
          × IsSupported "PLAYWRIGHT_VERSION" supported_playwright_version capabilities)
  unfolding resolve_version_compatibility resolve_observed judge verdict
  resolve_compatible_iff capabilities = (
    (λ h.
        let (t, v, usable, usable', agent, playwright) = resolve_observed_compatible _ _ h in
        (
          supported "AGENT_VERSION" supported_agent_version capabilities t usable agent,
          supported "PLAYWRIGHT_VERSION" supported_playwright_version capabilities v usable'
              playwright,
        )),
    λ h.
        rw
          (
            IsSupported-observed _ _ capabilities h.0,
            IsSupported-observed _ _ capabilities h.1,
            resolve_observed,
            supported_compares _ _ capabilities h.0,
            supported_compares _ _ capabilities h.1,
            judge,
          )
          refl,
  )
