-- ===== src/Sessions/Keys.antt =====
-- Session ids as the primary key of the table.
use ai_auto_test_platform.Prelude.{
  ◌≡◌, refl, ◌∙◌, String, Option, none, some, List, [], ◌∷◌, length, select, select-All, All, Bool,
  true, false, str_eq, eq_iff, eq_refl, arith,
}
use ai_auto_test_platform.Sessions.Rows.{RefreshSession}
use ai_auto_test_platform.Sessions.Service.{find_session, insert_by_issue, order_by_issue}

-- No two rows have one id.
abbrev pub Distinct : List RefreshSession → Type 0
Distinct [] = Unit
Distinct (r ∷ rs) = All (λ q. str_eq r.session_id q.session_id ≡ false) rs × Distinct rs

-- The table's row with this id passes the test `q`.
abbrev pub stored : (RefreshSession → Bool) → Option RefreshSession → Bool
stored q none = false
stored q (some r) = q r

abbrev pub Holds : (RefreshSession → Bool) → List RefreshSession → RefreshSession → Type 0
Holds q rows r = stored q (find_session r.session_id rows) ≡ true

str_eq_comm : (a b : String) → str_eq a b ≡ str_eq b a
str_eq_comm a b = ground (arith, eq_iff a b, eq_iff b a)

-- The row is the one that the table stores under its id.
abbrev pub IsStored : List RefreshSession → RefreshSession → Type 0
IsStored rows r = find_session r.session_id rows ≡ some r

IsStored-cons :
    (r : RefreshSession) (rows xs : List RefreshSession)
    → All (λ x. str_eq r.session_id x.session_id ≡ false) xs
    → All (IsStored rows) xs
    → All (IsStored (r ∷ rows)) xs
unfolding find_session
IsStored-cons r rows [] apart h = tt
IsStored-cons r rows (x ∷ xs) apart h =
    (ground (arith, apart.0, h.0), IsStored-cons r rows xs apart.1 h.1)

-- Under distinct ids every row of the table is the one stored under its id.
pub Distinct-IsStored : (rows : List RefreshSession) → Distinct rows → All (IsStored rows) rows
unfolding find_session
Distinct-IsStored [] d = tt
Distinct-IsStored (r ∷ rows) d =
    (rw (eq_refl r.session_id), IsStored-cons r rows rows d.0 (Distinct-IsStored rows d.1))

pub select-Distinct :
    (q : RefreshSession → Bool) (rows : List RefreshSession)
    → Distinct rows
    → Distinct (select q rows)
select-Distinct q [] d = tt
select-Distinct q (r ∷ rows) d = ground (
  arith,
  select-Distinct q rows d.1,
  select-All q (λ x. str_eq r.session_id x.session_id ≡ false) rows d.0,
)

insert-All :
    (P : RefreshSession → Type 0) (r : RefreshSession) (rows : List RefreshSession)
    → P r
    → All P rows
    → All P (insert_by_issue r rows)
unfolding insert_by_issue
insert-All P r [] p h = (p, tt)
insert-All P r (q ∷ rows) p h = ground (arith, insert-All P r rows p h.1)

pub order-All :
    (P : RefreshSession → Type 0) (rows : List RefreshSession)
    → All P rows
    → All P (order_by_issue rows)
unfolding order_by_issue
order-All P [] h = tt
order-All P (r ∷ rows) h = insert-All P r (order_by_issue rows) h.0 (order-All P rows h.1)

insert-Distinct :
    (r : RefreshSession) (rows : List RefreshSession)
    → All (λ q. str_eq r.session_id q.session_id ≡ false) rows
    → Distinct rows
    → Distinct (insert_by_issue r rows)
unfolding insert_by_issue
insert-Distinct r [] apart d = (tt, tt)
insert-Distinct r (q ∷ rows) apart d = ground (
  arith,
  insert-Distinct r rows apart.1 d.1,
  insert-All (λ x. str_eq q.session_id x.session_id ≡ false) r rows
      (str_eq_comm q.session_id r.session_id ∙ apart.0) d.0,
)

-- Ordering the rows keeps their ids distinct and their number.
pub order-Distinct : (rows : List RefreshSession) → Distinct rows → Distinct (order_by_issue rows)
unfolding order_by_issue
order-Distinct [] d = tt
order-Distinct (r ∷ rows) d =
    insert-Distinct r (order_by_issue rows)
      (order-All (λ q. str_eq r.session_id q.session_id ≡ false) rows d.0) (order-Distinct rows d.1)

module _ (p : RefreshSession → Bool) where
  select-insert_length :
      (r : RefreshSession) (rows : List RefreshSession)
      → length (select p (insert_by_issue r rows)) ≡ length (select p (r ∷ rows))
  unfolding insert_by_issue
  select-insert_length r [] = refl
  select-insert_length r (q ∷ rows) = ground (arith, select-insert_length r rows)

  pub select-order_length :
      (rows : List RefreshSession)
      → length (select p (order_by_issue rows)) ≡ length (select p rows)
  unfolding order_by_issue
  select-order_length [] = refl
  select-order_length (r ∷ rows) =
      ground (arith, select-insert_length r (order_by_issue rows), select-order_length rows)
