-- ===== src/RateLimit/Permits/Count.antt =====
-- The count that a request leaves, and the number of requests that a window permits.
use ai_auto_test_platform.Prelude.{
  ℕ, ◌+◌, ◌≡◌, ◌≢◌, refl, ap, sym, subst, ◌∙◌, min, String, Option, none, some, List, ◌∷◌, All-mono,
  true, false, false≢true, str_eq, eq_iff, eq_refl, arith, Bool-cases, inl, inr, if◌then◌else◌,
}
use ai_auto_test_platform.RateLimit.{
  AuthSourceRateLimit, window_of, first_row, existing_digest, has_row, row_at, bumped, counted,
}
use ai_auto_test_platform.RateLimit.Permits.{
  View, count_of, Keyed, found_present, none_but, existing_digest-found, existing_digest-absent,
  existing_digest-same, only_active,
}

abbrev put : String → AuthSourceRateLimit → View → View
put key row view = λ d. if str_eq key d then some row else view d

put-has_row :
    (key : String) (row : AuthSourceRateLimit) (view : View)
    → has_row (view key) ≡ true
    → (d : String) → has_row (put key row view d) ≡ has_row (view d)
put-has_row key row view h d = elim (Bool-cases (str_eq key d)) [
  | inl same ↦ rw same (sym (subst (λ x. has_row (view x) ≡ true) ((eq_iff key d).0 same) h))
  | inr other ↦ rw other refl
]

only-found :
    (active : String) (o : Option String) → none_but active o ≡ true → o ≢ none → o ≡ some active
only-found active none h ne = absurd (ne refl)
only-found active (some d) h ne = ap some (sym ((eq_iff active d).0 h))

-- What a request's row does to the view of its operation and window.
pub record Charged (limit : ℕ) (digests : List String) (operation : String) (window : ℕ)
    (view : View) (row : AuthSourceRateLimit) : Type 0 where
  pub operation_is : row.operation_id ≡ operation
  pub window_is : row.window_started_at ≡ window
  pub count : row.request_count ≡ min (limit + 1) (count_of digests view + 1)
  pub next : existing_digest digests (put row.source_key_hash row view) ≡ some row.source_key_hash

module _ (limit : ℕ) (active : String) (accepted : List String) (operation : String) (now : ℕ)
    (view : View) (keyed : Keyed operation (window_of now) view) where
  abbrev digests : List String
  digests = active ∷ accepted

  bumped-Charged :
      (d : String) (row : AuthSourceRateLimit)
      → existing_digest digests view ≡ some d
      → view d ≡ some row
      → Charged limit digests operation (window_of now) view (bumped limit row)
  unfolding bumped
  bumped-Charged d row e v =
      let own = keyed d row v in
      record {
        operation_is = own.1.0;
        window_is = own.1.1;
        count = rw (e, v) refl;
        next =
            existing_digest-same digests _ view
              (put-has_row row.source_key_hash (bumped limit row) view (rw (own.0, v) refl))
            ∙ e
            ∙ ap some (sym own.0);
      }

  abbrev fresh_view : View
  fresh_view = put active (first_row active operation now) view

  fresh-Charged :
      existing_digest digests view ≡ none
      → Charged limit digests operation (window_of now) view (first_row active operation now)
  fresh-Charged e = record {
    operation_is = refl;
    window_is = refl;
    count = rw e (omega arith);
    next =
        only-found active (existing_digest digests fresh_view)
          (only_active active digests fresh_view (
            All-mono (λ d. has_row (view d) ≡ false) _ digests (λ d absent. ground (arith, absent))
              (existing_digest-absent digests view e)))
          λ gone.
            false≢true
              (sym (existing_digest-absent digests fresh_view gone).0 ∙ rw (eq_refl active) refl);
  }

  absent-none : (o : Option AuthSourceRateLimit) → has_row o ≡ false → o ≡ none
  absent-none none h = refl
  absent-none (some row) h = absurd (false≢true (sym h))

  counted-cases :
      (o : Option String)
      → existing_digest digests view ≡ o
      → (found : Option AuthSourceRateLimit) → row_at o view ≡ found
      → found_present view o ≡ true
      → Charged limit digests operation
          (window_of now)
          view
          (counted limit (first_row active operation now) active view found)
  unfolding counted
  counted-cases none e none r p =
      rw (absent-none (view active) (existing_digest-absent digests view e).0) (fresh-Charged e)
  counted-cases none e (some row) r p = cc
  counted-cases (some d) e none r p = absurd (false≢true (sym (ap has_row r) ∙ p))
  counted-cases (some d) e (some row) r p = bumped-Charged d row e r

  -- The row that a request writes counts one request more than the row that was found, up to
  -- `limit + 1`, and the next request of the window finds it.
  pub counted-Charged : Charged limit digests operation (window_of now) view (
      counted limit
        (first_row active operation now)
        active
        view
        (row_at (existing_digest digests view) view))
  counted-Charged =
      counted-cases (existing_digest digests view) refl _ refl (existing_digest-found digests view)
