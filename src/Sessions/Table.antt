-- ===== src/Sessions/Table.antt =====
-- Updates of the session table, query by query.
use ai_auto_test_platform.Prelude.{◌≡◌, refl, List, [], ◌∷◌, select, Bool, true, false, arith}
use ai_auto_test_platform.Sessions.Rows.{RefreshSession}
use ai_auto_test_platform.Sessions.Service.{for_update}

module _ (p q : RefreshSession → Bool) (change : RefreshSession → RefreshSession) where
  -- Where `p` holds every row of `q`, and what is changed is no row of `q`, none is left.
  pub select-for_update_none :
      (rows : List RefreshSession)
      → ((r : RefreshSession) → q (change r) ≡ false)
      → ((r : RefreshSession) → p r ≡ false → q r ≡ false)
      → select q (for_update p change rows) ≡ []
  unfolding for_update
  select-for_update_none [] out cover = refl
  select-for_update_none (r ∷ rows) out cover =
      ground (arith, out r, cover r, select-for_update_none rows out cover)

  -- What is not changed stays: a query that holds no row of `p`, before or after, sees no change.
  pub select-for_update_apart :
      (rows : List RefreshSession)
      → ((r : RefreshSession) → p r ≡ true → q r ≡ false)
      → ((r : RefreshSession) → p r ≡ true → q (change r) ≡ false)
      → select q (for_update p change rows) ≡ select q rows
  unfolding for_update
  select-for_update_apart [] before after = refl
  select-for_update_apart (r ∷ rows) before after =
      ground (arith, before r, after r, select-for_update_apart rows before after)
