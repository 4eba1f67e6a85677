-- ===== src/RateLimit/Permits/Calls.antt =====
-- A run of requests of one source in one window.
use ai_auto_test_platform.Prelude.{
  ℕ, zero, suc, ◌+◌, ◌-◌, ◌≡◌, refl, ap, sym, subst, ◌∙◌, min, String, Option, none, some, List,
  ◌∷◌, Bool, true, false, not, ltb, ◌==◌, ==_iff, str_eq, eq_iff, eq_refl, arith, Bool-cases, inl,
  inr, if◌then◌else◌, Result, ok, err, Returns, Returns-mono,
}
use ai_auto_test_platform.Runtime.{Runtime}
use ai_auto_test_platform.Sessions.Rows.{
  Store, AuditContext, append, append-Appended, Appended, Fits,
}
use ai_auto_test_platform.RateLimit.{
  AuthSourceRateLimit, Table, State, Consumed, permitted, limited, failed, set_row, limit_of,
  window_of, first_row, existing_digest, has_row, row_at, counted, after_audit, limited_entry,
  charge, consume,
}
use ai_auto_test_platform.RateLimit.Permits.{View, row_count, count_of, Keyed, existing_digest-same}
use ai_auto_test_platform.RateLimit.Permits.Count.{Charged, counted-Charged}

abbrev pub is_permitted : Consumed → Bool
is_permitted (permitted state) = true
is_permitted (limited wait state) = false
is_permitted (failed e) = false

abbrev pub state_after : Consumed → State → State
state_after (permitted state) before = state
state_after (limited wait state) before = state
state_after (failed e) before = before

abbrev pub view_of : State → String → ℕ → View
view_of state operation window = λ d. state.rows d operation window

module _ (row : AuthSourceRateLimit) (rows : Table) (operation : String) (window : ℕ)
    (same_operation : row.operation_id ≡ operation)
    (same_window : row.window_started_at ≡ window) where
  set_row-at :
      (d : String)
      → set_row row rows d operation window
        ≡ (if str_eq row.source_key_hash d then some row else rows d operation window)
  set_row-at d =
      let o : str_eq row.operation_id operation ≡ true = (eq_iff _ _).1 same_operation in
      let w : (row.window_started_at == window) ≡ true = (==_iff _ _).1 same_window in
      elim (Bool-cases (str_eq row.source_key_hash d)) [
        | inl same ↦ rw (same, o, w) refl
        | inr other ↦ rw other refl
      ]

  abbrev Own : String → Option AuthSourceRateLimit → Type 0
  Own d none = Unit
  Own d (some r) =
      (r.source_key_hash ≡ d) × ((r.operation_id ≡ operation) × (r.window_started_at ≡ window))

  chosen :
      (d : String) (r : AuthSourceRateLimit) (b : Bool)
      → Keyed operation window (λ d. rows d operation window)
      → str_eq row.source_key_hash d ≡ b
      → (if b then some row else rows d operation window) ≡ some r
      → Own d (some r)
  chosen d r true keyed same e =
      subst (Own d) e ((eq_iff row.source_key_hash d).0 same, (same_operation, same_window))
  chosen d r false keyed other e = keyed d r e

  set_row-Keyed :
      Keyed operation window (λ d. rows d operation window)
      → Keyed operation window (λ d. set_row row rows d operation window)
  set_row-Keyed keyed d r e =
      chosen d r (str_eq row.source_key_hash d) keyed refl (sym (set_row-at d) ∙ e)

  set_row-count :
      (digests : List String)
      → existing_digest digests
          (λ d. if str_eq row.source_key_hash d then some row else rows d operation window)
        ≡ some row.source_key_hash
      → count_of digests (λ d. set_row row rows d operation window) ≡ row.request_count
  set_row-count digests next =
      let found =
        existing_digest-same digests (λ d. set_row row rows d operation window) _
          (λ d. ap has_row (set_row-at d))
        ∙ next in
      let own : set_row row rows row.source_key_hash operation window ≡ some row =
        set_row-at row.source_key_hash ∙ rw (eq_refl row.source_key_hash) refl in
      ap (λ o. row_count (row_at o (λ d. set_row row rows d operation window))) found
      ∙ ap row_count own

step :
    (limit c n : ℕ)
    → (if ltb c limit then 1 else 0) + min n (limit - min (limit + 1) (c + 1))
      ≡ min (suc n) (limit - c)
step limit c n = ground arith

within : (limit c : ℕ) → not (ltb limit (min (limit + 1) (c + 1))) ≡ ltb c limit
within limit c = ground arith

after_audit-rows :
    (now : ℕ) (rows : Table) (m : Result Store) (before : State)
    → Returns (λ _. Unit {0}) m
    → (is_permitted (after_audit now rows m) ≡ false)
      × ((state_after (after_audit now rows m) before).rows ≡ rows)
after_audit-rows now rows (ok store) before h = (refl, refl)
after_audit-rows now rows (err e) before h = absurd h

-- What one request does.
pub record Served (limit : ℕ) (digests : List String) (operation : String) (window : ℕ)
    (before : State) (out : Consumed) : Type 0 where
  pub granted : is_permitted out ≡ ltb (count_of digests (view_of before operation window)) limit
  pub count :
      count_of digests (view_of (state_after out before) operation window)
      ≡ min (limit + 1) (count_of digests (view_of before operation window) + 1)
  pub keyed : Keyed operation window (view_of (state_after out before) operation window)

module _ ⦃rt : Runtime⦄ (limit : ℕ) (active : String) (accepted : List String) (operation : String)
    (context : AuditContext) (fits : Fits 128 operation) where
  abbrev digests : List String
  digests = active ∷ accepted

  audited :
      (store : Store) → Returns (λ _. Unit {0}) (append context (limited_entry operation) store)
  audited store =
      Returns-mono (Appended store) _ (append context (limited_entry operation) store)
        (append-Appended context (limited_entry operation) store fits (omega arith, omega arith))
        (λ _ _. tt)

  module _ (now : ℕ) (state : State)
      (keyed : Keyed operation (window_of now) (view_of state operation (window_of now))) where
    abbrev view : View
    view = view_of state operation (window_of now)

    abbrev row : AuthSourceRateLimit
    row =
        counted limit (first_row active operation now) active view
          (row_at (existing_digest digests view) view)

    abbrev charged : Charged limit digests operation (window_of now) view row
    charged = counted-Charged limit active accepted operation now view keyed

    served :
        (out : Consumed)
        → is_permitted out ≡ not (ltb limit row.request_count)
        → (state_after out state).rows ≡ set_row row state.rows
        → Served limit digests operation (window_of now) state out
    served out granted e = record {
      granted = granted ∙ rw charged.count (within limit (count_of digests view));
      count =
          ap (λ (rows : Table). count_of digests (λ d. rows d operation (window_of now))) e
          ∙ set_row-count row state.rows operation (window_of now) charged.operation_is
              charged.window_is digests charged.next
          ∙ charged.count;
      keyed =
          subst
            (λ (rows : Table).
              Keyed operation (window_of now) (λ d. rows d operation (window_of now)))
            (sym e)
            (set_row-Keyed row state.rows operation (window_of now) charged.operation_is
              charged.window_is keyed);
    }

    -- The store of the call is not that of `state`, since the clock was read.
    charge-Served :
        (store : Store)
        → Served limit digests operation (window_of now) state (
            charge limit now active accepted operation context
              (record { rows = state.rows; store = store }))
    unfolding charge
    charge-Served store = elim (Bool-cases (ltb limit row.request_count)) [
      | inl over ↦
          let done = after_audit-rows now (set_row row state.rows) _ state (audited store) in
          served _ (rw (over, done.0) refl) (rw over done.1)
      | inr under ↦ served _ (rw under refl) (rw under refl)
    ]

limit_of-Fits :
    (operation : String) (limit : ℕ) → limit_of operation ≡ some limit → Fits 128 operation
unfolding limit_of
limit_of-Fits operation limit e = elim (Bool-cases (str_eq operation "login_platform_user")) [
  | inl login ↦ rw ((eq_iff operation "login_platform_user").0 login) (omega arith, omega arith)
  | inr other ↦
      let refresh : str_eq operation "refresh_platform_session" ≡ true = ground (arith, e, other) in
      rw ((eq_iff operation "refresh_platform_session").0 refresh) (omega arith, omega arith)
]

module _ ⦃rt : Runtime⦄ (active : String) (accepted : List String) (operation : String)
    (context : AuditContext) where
  -- How many of `n` requests, one after the other, are let through.
  pub granted_calls : ℕ → State → ℕ
  granted_calls zero state = 0
  granted_calls (suc n) state =
      let out = consume active accepted operation context state in
      (if is_permitted out then 1 else 0) + granted_calls n (state_after out state)

  consume-Served :
      (limit window : ℕ) (state : State)
      → limit_of operation ≡ some limit
      → window_of (rt.clock state.store.reads) ≡ window
      → Keyed operation window (view_of state operation window)
      → Served limit
          (active ∷ accepted)
          operation
          window
          state
          (consume active accepted operation context state)
  unfolding consume
  consume-Served limit window state known same keyed =
      let store = record state.store { reads = state.store.reads + 1 } in
      let own = subst (λ w. Keyed operation w (view_of state operation w)) (sym same) keyed in
      rw known (
        subst
          (λ w. Served limit (active ∷ accepted) operation w state (
            charge limit (rt.clock state.store.reads) active accepted operation context
              (record { rows = state.rows; store = store })))
          same
          (charge-Served limit active accepted operation context
            (limit_of-Fits operation limit known) (rt.clock state.store.reads) state own store))

  -- Of `n` requests of one source, for an operation that has a limit, at times that all lie in one
  -- window, exactly as many are let through as the limit leaves above the requests counted before, so
  -- that no request above the limit passes and none within it is refused. The rows of the window are
  -- stored under their own keys; the row charged may be that of any accepted digest of the source.
  pub granted_calls-limit :
      (limit window : ℕ) (n : ℕ) (state : State)
      → limit_of operation ≡ some limit
      → ((k : ℕ) → window_of (rt.clock k) ≡ window)
      → Keyed operation window (view_of state operation window)
      → granted_calls n state
        ≡ min n (limit - count_of (active ∷ accepted) (view_of state operation window))
  unfolding granted_calls
  granted_calls-limit limit window zero state known same keyed = omega arith
  granted_calls-limit limit window (suc n) state known same keyed =
      let out = consume active accepted operation context state in
      let s = consume-Served limit window state known (same state.store.reads) keyed in
      let rest = granted_calls-limit limit window n (state_after out state) known same s.keyed in
      rw (s.granted, rest, s.count)
        (step limit (count_of (active ∷ accepted) (view_of state operation window)) n)
