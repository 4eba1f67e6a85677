-- ===== src/Binding/Preflight/Required.antt =====
-- The capabilities that a binding requires of its runner, with the tables of their codes.
use Prim.Native.String.{compare}
use text.Mathlib.Text.{is_le}
use ai_auto_test_platform.Prelude.{
  String, Option, none, some, List, [], ◌∷◌, select, Bool, true, not, ◌&&◌, str_eq, if◌then◌else◌,
}
use ai_auto_test_platform.Idempotency.{member}
use ai_auto_test_platform.Owner.Rows.{Dict}
use ai_auto_test_platform.Runtime.{Runtime}
use ai_auto_test_platform.Runners.Rows.{Runner, Capability}
use ai_auto_test_platform.Binding.Rows.{BindingInput, Policy, CapabilityFact}
use ai_auto_test_platform.Binding.Facts.{Terminal}
use ai_auto_test_platform.Binding.Store.{Store}
use ai_auto_test_platform.Binding.Preflight.{is_usable}

-- `_TERMINAL_CAPABILITIES`, `_BROWSER_CAPABILITIES`, `_ARTIFACT_CAPABILITIES`, `_NETWORK_CAPABILITIES`
abbrev pub terminal_capabilities : Dict
terminal_capabilities =
    ("MANAGEMENT", "TERMINAL_ADMIN_WEB")
    ∷ ("CLIENT", "TERMINAL_CLIENT_WEB")
    ∷ ("PDA", "TERMINAL_PDA_WEB")
    ∷ []

abbrev pub browser_capabilities : Dict
browser_capabilities =
    ("CHROMIUM", "BROWSER_CHROMIUM") ∷ ("CHROME", "BROWSER_CHROME") ∷ ("EDGE", "BROWSER_EDGE") ∷ []

abbrev pub artifact_capabilities : Dict
artifact_capabilities =
    ("SCREENSHOT", "CAPTURE_SCREENSHOT")
    ∷ ("VIDEO", "CAPTURE_VIDEO")
    ∷ ("TRACE", "CAPTURE_TRACE")
    ∷ []

abbrev pub network_capabilities : Dict
network_capabilities = ("INTRANET", "INTRANET_ACCESS") ∷ ("PROXY", "PROXY_ACCESS") ∷ []

-- `table[key]`, where none is no such key.
unfoldable pub dict_get : String → Dict → Option String
dict_get key [] = none
dict_get key ((k, v) ∷ rest) = if str_eq k key then some v else dict_get key rest

-- Sets of texts are lists without repetition.
unfoldable pub add : String → List String → List String
add x xs = if member x xs then xs else x ∷ xs

unfoldable pub to_set : List String → List String
to_set [] = []
to_set (x ∷ xs) = add x (to_set xs)

abbrev pub add_given : Option String → List String → List String
add_given none xs = xs
add_given (some x) xs = add x xs

unfoldable pub add_terminal : Option Terminal → List String → List String
add_terminal none xs = xs
add_terminal (some t) xs = add_given (dict_get t.terminal_type terminal_capabilities) xs

unfoldable pub add_policy : Option Policy → List String → List String
add_policy none xs = xs
add_policy (some p) xs = add_given (dict_get p.network_requirement network_capabilities) (
    add_given (dict_get p.artifact_policy artifact_capabilities)
      (add_given (dict_get p.browser_runtime browser_capabilities) xs))

unfoldable pub required : BindingInput → Option Terminal → Option Policy → List String
required body terminal policy =
    add_policy policy
      (add_terminal terminal (add "FORMAL_EXECUTION" (to_set body.required_capabilities)))

abbrev pub is_required : BindingInput → List String → Capability → Bool
is_required body codes c =
    str_eq c.runner_id body.runner_id && (member c.capability_code codes && is_usable c)

-- `capabilities`, empty without a runner
unfoldable pub capabilities_of :
    BindingInput → Option Runner → List String → Store → List Capability
capabilities_of body none codes db = []
capabilities_of body (some r) codes db = select (is_required body codes) db.facts.capabilities

abbrev pub code_of : Capability → String
code_of c = c.capability_code

-- `required.issubset(codes)` and `required - codes`
unfoldable pub is_subset : List String → List String → Bool
is_subset [] codes = true
is_subset (x ∷ xs) codes = member x codes && is_subset xs codes

abbrev pub difference : List String → List String → List String
difference xs codes = select (λ x. not (member x codes)) xs

-- `sorted`, which is stable
abbrev pub text_le : String → String → Bool
text_le a b = is_le (compare a b)

unfoldable pub insert_by {ℓ} : {A : Type ℓ} → (A → String) → A → List A → List A
insert_by key x [] = x ∷ []
insert_by key x (y ∷ ys) =
    let rest = insert_by key x ys in if text_le (key x) (key y) then x ∷ y ∷ ys else y ∷ rest

unfoldable pub sort_by {ℓ} : {A : Type ℓ} → (A → String) → List A → List A
sort_by key [] = []
sort_by key (x ∷ xs) = insert_by key x (sort_by key xs)

abbrev pub sorted : List String → List String
sorted = sort_by (λ s. s)

-- One object of `snapshot`
abbrev pub fact_of : ⦃rt : Runtime⦄ → Capability → CapabilityFact
fact_of ⦃rt⦄ c = record {
  capability_code = c.capability_code;
  capability_type = c.capability_type;
  availability_status = c.availability_status;
  validation_status = c.validation_status;
  lifecycle_status = c.lifecycle_status;
  observed_version = c.observed_version;
  reported_at = rt.isoformat c.reported_at;
}
