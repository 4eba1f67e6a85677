-- ===== src/Runners/Versions.antt =====
-- Version compatibility: `_numeric_version`, `_compare_numeric_versions` and
-- `resolve_version_compatibility` of runner_readiness.py.
pub mod Components
pub mod Order
use Prim.Native.Nat.{compare, Ordering}
use Prim.Native.Char.{code}
use ai_auto_test_platform.Prelude.{
  ℕ, suc, zero, ◌+◌, ◌*◌, ◌-◌, max, String, Option, none, some, List, [], ◌∷◌, ◌++◌, length, Bool,
  true, false, not, ◌&&◌, ◌||◌, str_eq, leb, ◌==◌, if◌then◌else◌,
}
use ai_auto_test_platform.Runners.Rows.{Capability}

-- Python's tables of Unicode: white space for `str.strip`, and the value of a decimal digit, which
-- `\d` and `int` read.
pub record Unicode : Type 0 where
  pub is_space : ℕ → Bool
  pub digit : ℕ → Option ℕ

abbrev pub codes : String → List ℕ
codes String.[] = []
codes (String.◌∷◌ c s) = code c ∷ codes s

abbrev pub supported_agent_version : String
supported_agent_version = "0.1.0"

abbrev pub supported_playwright_version : String
supported_playwright_version = "1.62.0"

-- The first part of `text.split(".")` and those after it.
split_dots : List ℕ → List ℕ × List (List ℕ)
split_dots [] = ([], [])
split_dots (c ∷ cs) =
    let (first, rest) = split_dots cs in if c == b'.' then ([], first ∷ rest) else (c ∷ first, rest)

abbrev pub pad : ℕ → List ℕ
pad zero = []
pad (suc n) = 0 ∷ pad n

-- Python's order of tuples.
unfoldable pub tuple_compare : List ℕ → List ℕ → Ordering
tuple_compare [] [] = Ordering.eq
tuple_compare [] (y ∷ ys) = Ordering.lt
tuple_compare (x ∷ xs) [] = Ordering.gt
tuple_compare (x ∷ xs) (y ∷ ys) = elim (compare x y) [
  | Ordering.lt ↦ Ordering.lt
  | Ordering.gt ↦ Ordering.gt
  | Ordering.eq ↦ tuple_compare xs ys
]

-- The shorter tuple is filled up with zeros.
unfoldable pub compare_parts : List ℕ → List ℕ → Ordering
unfolding tuple_compare
compare_parts left right =
    let width = max (length left) (length right) in
    tuple_compare (left ++ pad (width - length left)) (right ++ pad (width - length right))

module _ ⦃u : Unicode⦄ where
  unfoldable pub skip_space : List ℕ → List ℕ
  skip_space [] = []
  skip_space (c ∷ cs) = let rest = skip_space cs in if u.is_space c then rest else c ∷ cs

  unfoldable pub strip_end : List ℕ → List ℕ
  strip_end [] = []
  strip_end (c ∷ cs) = elim (strip_end cs) [
    | [] ↦ if u.is_space c then [] else c ∷ []
    | d ∷ ds ↦ c ∷ d ∷ ds
  ]

  unfoldable pub strip : List ℕ → List ℕ
  unfolding strip_end skip_space
  strip text = strip_end (skip_space text)

  -- `int(part)`, or `none` where the part is not `\d+`.
  number_from : ℕ → List ℕ → Option ℕ
  number_from n [] = some n
  number_from n (c ∷ cs) = elim (u.digit c) [ none ↦ none | some d ↦ number_from (n * 10 + d) cs ]

  part_number : List ℕ → Option ℕ
  unfolding number_from
  part_number [] = none
  part_number (c ∷ cs) = number_from 0 (c ∷ cs)

  part_numbers : List (List ℕ) → Option (List ℕ)
  unfolding part_number
  part_numbers [] = some []
  part_numbers (p ∷ ps) = elim (part_number p) [
    | none ↦ none
    | some n ↦ elim (part_numbers ps) [ none ↦ none | some ns ↦ some (n ∷ ns) ]
  ]

  -- `^\d+(?:\.\d+)+$` asks for at least two parts.
  numeric_parts : List ℕ × List (List ℕ) → Option (List ℕ)
  unfolding part_numbers
  numeric_parts (first, []) = none
  numeric_parts (first, second ∷ rest) = part_numbers (first ∷ second ∷ rest)

  unfoldable pub numeric_version : List ℕ → Option (List ℕ)
  unfolding numeric_parts strip split_dots
  numeric_version text = numeric_parts (split_dots (strip text))

  unfoldable pub compare_parsed : Option (List ℕ) → Option (List ℕ) → Option Ordering
  compare_parsed none right = none
  compare_parsed (some left) none = none
  compare_parsed (some left) (some right) = some (compare_parts left right)

  -- `some lt`, `some eq` and `some gt` are -1, 0 and 1.
  unfoldable pub compare_numeric_versions : List ℕ → List ℕ → Option Ordering
  unfolding compare_parsed
  compare_numeric_versions left right =
      compare_parsed (numeric_version left) (numeric_version right)

  -- The observed version of a usable capability, `none` for any other.
  unfoldable pub text_or_none : Option String → Option (List ℕ)
  unfolding strip
  text_or_none none = none
  text_or_none (some v) = if str_eq v "" then none else some (strip (codes v))

  unfoldable pub observed : Option Capability → Option (List ℕ)
  unfolding text_or_none
  observed none = none
  observed (some c) =
      if str_eq c.availability_status "CONFIGURED"
        && (str_eq c.lifecycle_status "ACTIVE" && str_eq c.validation_status "VALID")
      then text_or_none c.observed_version
      else none

-- `{item.capability_code: item for item in capabilities}.get(code)`: the last one of a code counts.
unfoldable pub by_code : String → List Capability → Option Capability
by_code code [] = none
by_code code (c ∷ cs) = elim (by_code code cs) [
  | some later ↦ some later
  | none ↦ if str_eq c.capability_code code then some c else none
]

abbrev pub is_eq_order : Ordering → Bool
is_eq_order Ordering.eq = true
is_eq_order _ = false

abbrev pub is_gt_order : Ordering → Bool
is_gt_order Ordering.gt = true
is_gt_order _ = false

pub data Compatibility : Type 0 where
  unknown incompatible compatible upgrade_required : Compatibility

-- The three ways out after both comparisons have been made.
unfoldable pub verdict : Ordering → Ordering → Compatibility
verdict a p =
    if is_eq_order a && is_eq_order p
    then compatible
    else if is_gt_order a || is_gt_order p
    then incompatible
    else upgrade_required

unfoldable pub judge : Option Ordering → Option Ordering → Compatibility
unfolding verdict
judge none p = incompatible
judge (some a) none = incompatible
judge (some a) (some p) = verdict a p

module _ ⦃u : Unicode⦄ where
  unfoldable pub resolve_observed : Option (List ℕ) → Option (List ℕ) → Compatibility
  unfolding judge
  resolve_observed none playwright = unknown
  resolve_observed (some agent) none = unknown
  resolve_observed (some agent) (some playwright) =
      judge (compare_numeric_versions agent (codes supported_agent_version))
        (compare_numeric_versions playwright (codes supported_playwright_version))

  unfoldable pub resolve_version_compatibility : List Capability → Compatibility
  unfolding resolve_observed observed by_code
  resolve_version_compatibility capabilities =
      resolve_observed (observed (by_code "AGENT_VERSION" capabilities))
        (observed (by_code "PLAYWRIGHT_VERSION" capabilities))
