-- ===== src/RateLimit/Permits.antt =====
-- How many requests of a source a window permits.
pub mod Count
pub mod Calls
use Prim.Native.String.{compare}
use text.Mathlib.Text.{is_le}
use ai_auto_test_platform.Prelude.{
  ℕ, zero, suc, ◌+◌, ◌-◌, ◌*◌, ◌≤◌, ◌<◌, ◌≡◌, refl, ap, sym, subst, ◌∙◌, min, max, String, Option,
  none, some, List, [], ◌∷◌, All, All-mono, Bool, true, false, false≢true, not, ◌&&◌, ◌||◌, ltb,
  ◌==◌, ==_iff, str_eq, eq_iff, eq_refl, arith, Bool-cases, Option-cases, inl, inr, if◌then◌else◌,
  ◌⊎◌,
}
use ai_auto_test_platform.RateLimit.{
  AuthSourceRateLimit, Table, set_row, window_of, first_row, existing_digest, smaller, has_row,
  row_at, bumped, inserted, counted,
}

abbrev pub View : Type 0
View = String → Option AuthSourceRateLimit

abbrev pub row_count : Option AuthSourceRateLimit → ℕ
row_count none = 0
row_count (some row) = row.request_count

-- The count of the row that the next request charges.
abbrev pub count_of : List String → View → ℕ
count_of digests view = row_count (row_at (existing_digest digests view) view)

-- A row of the view is stored under its own key.
abbrev pub Keyed : String → ℕ → View → Type 0
Keyed operation window view =
    (d : String) (row : AuthSourceRateLimit)
    → view d ≡ some row
    → (row.source_key_hash ≡ d)
      × ((row.operation_id ≡ operation) × (row.window_started_at ≡ window))

abbrev pub found_present : View → Option String → Bool
found_present view none = true
found_present view (some d) = has_row (view d)

abbrev pub none_but : String → Option String → Bool
none_but active none = true
none_but active (some d) = str_eq active d

if-either :
    (p : Option String → Bool) (b : Bool) (x y : Option String)
    → p x ≡ true
    → p y ≡ true
    → p (if b then x else y) ≡ true
if-either p true x y h k = h
if-either p false x y h k = k

smaller-cases :
    (p : Option String → Bool) (d : String) (o : Option String)
    → p (some d) ≡ true
    → p o ≡ true
    → p (smaller d o) ≡ true
smaller-cases p d none h k = h
smaller-cases p d (some e) h k = if-either p (is_le (compare d e)) (some d) (some e) h k

pub existing_digest-found :
    (digests : List String) (view : View) → found_present view (existing_digest digests view) ≡ true
unfolding existing_digest
existing_digest-found [] view = refl
existing_digest-found (d ∷ ds) view = elim (Bool-cases (has_row (view d))) [
  | inl there ↦ rw there (
      smaller-cases (found_present view) d (existing_digest ds view) there
        (existing_digest-found ds view))
  | inr absent ↦ rw absent (existing_digest-found ds view)
]

pub existing_digest-absent :
    (digests : List String) (view : View)
    → existing_digest digests view ≡ none
    → All (λ d. has_row (view d) ≡ false) digests
unfolding existing_digest
existing_digest-absent [] view q = tt
existing_digest-absent (d ∷ ds) view q = ground (arith, existing_digest-absent ds view)

pub existing_digest-same :
    (digests : List String) (view view' : View)
    → ((d : String) → has_row (view d) ≡ has_row (view' d))
    → existing_digest digests view ≡ existing_digest digests view'
unfolding existing_digest
existing_digest-same [] view view' h = refl
existing_digest-same (d ∷ ds) view view' h = rw (h d, existing_digest-same ds view view' h) refl

-- Where `active` alone has a row, no other digest is found.
pub only_active :
    (active : String) (digests : List String) (view : View)
    → All (λ d. has_row (view d) ≡ true → str_eq active d ≡ true) digests
    → none_but active (existing_digest digests view) ≡ true
unfolding existing_digest
only_active active [] view h = refl
only_active active (d ∷ ds) view h = elim (Bool-cases (has_row (view d))) [
  | inl there ↦ rw there (
      smaller-cases (none_but active) d (existing_digest ds view) (h.0 there)
        (only_active active ds view h.1))
  | inr absent ↦ rw absent (only_active active ds view h.1)
]
