-- ===== src/RateLimit.antt =====
-- The limit on authentication requests of one source: `AuthenticationRateLimitService.consume` of
-- rate_limit.py and `AuthSourceRateLimit` of models.py. Times are in microseconds. A digest is its
-- hexadecimal text, whose order is that of the bytes.
pub mod Window
pub mod Permits
pub mod Sources
pub mod Proxies
mod Tests
use Prim.Native.String.{compare}
use text.Mathlib.Text.{is_le}
use ai_auto_test_platform.Prelude.{
  ℕ, ◌+◌, ◌-◌, ◌*◌, ◌/◌, min, max, String, Option, none, some, List, [], ◌∷◌, Bool, true, false,
  ltb, str_eq, if◌then◌else◌, ◌==◌, ◌&&◌, Error, runtime_error, key_error, index_error,
  overflow_error, value_error, platform_error, Result, ok, err, concat,
}
use ai_auto_test_platform.Runtime.{Runtime}
use ai_auto_test_platform.Sessions.Rows.{Store, AuditContext, AuditEntry, append}

pub record AuthSourceRateLimit : Type 0 where
  pub source_key_hash : String
  pub operation_id : String
  pub window_started_at : ℕ
  pub request_count : ℕ
  pub expires_at : ℕ
  pub row_version : ℕ

-- The table by its primary key: digest, operation and window.
abbrev pub Table : Type 0
Table = String → String → ℕ → Option AuthSourceRateLimit

abbrev pub set_row : AuthSourceRateLimit → Table → Table
set_row row table = λ hash operation window.
    if str_eq row.source_key_hash hash
      && (str_eq row.operation_id operation && (row.window_started_at == window))
    then some row
    else table hash operation window

pub record State : Type 0 where
  pub rows : Table
  pub store : Store

-- `consume` returns, or raises after its transaction committed, or raises and rolls back.
pub data Consumed : Type 0 where
  permitted : State → Consumed
  limited : ℕ → State → Consumed
  failed : Error → Consumed

-- `_LIMITS`
unfoldable pub limit_of : String → Option ℕ
limit_of operation_id =
    if str_eq operation_id "login_platform_user"
    then some 60
    else if str_eq operation_id "refresh_platform_session"
    then some 300
    else none

abbrev pub second : ℕ
second = 1000000

-- `window` and `expires`
unfoldable pub window_of : ℕ → ℕ
window_of now = now / second / 300 * 300 * second

unfoldable pub window_end : ℕ → ℕ
unfolding window_of
window_end now = window_of now + 300 * second

unfoldable pub retry_after : ℕ → ℕ
retry_after now = max 1 (min 300 ((window_end now - now) / second + 1))

-- `ORDER BY source_key_hash LIMIT 1` of the digests that have a row
abbrev pub smaller : String → Option String → Option String
smaller d none = some d
smaller d (some e) = if is_le (compare d e) then some d else some e

abbrev pub has_row : Option AuthSourceRateLimit → Bool
has_row none = false
has_row (some row) = true

unfoldable pub existing_digest : List String → (String → Option AuthSourceRateLimit) → Option String
existing_digest [] row_of = none
existing_digest (d ∷ ds) row_of =
    let rest = existing_digest ds row_of in if has_row (row_of d) then smaller d rest else rest

-- One more request, never above `limit + 1`.
unfoldable pub bumped : ℕ → AuthSourceRateLimit → AuthSourceRateLimit
bumped limit row = record row {
  request_count = min (limit + 1) (row.request_count + 1);
  row_version = row.row_version + 1;
}

abbrev pub first_row : String → String → ℕ → AuthSourceRateLimit
first_row digest operation_id now = record {
  source_key_hash = digest;
  operation_id = operation_id;
  window_started_at = window_of now;
  request_count = 1;
  expires_at = window_end now;
  row_version = 0;
}

-- INSERT ... ON DUPLICATE KEY UPDATE
abbrev pub inserted : ℕ → AuthSourceRateLimit → Option AuthSourceRateLimit → AuthSourceRateLimit
inserted limit made none = made
inserted limit made (some row) = bumped limit row

abbrev pub row_at :
    Option String → (String → Option AuthSourceRateLimit) → Option AuthSourceRateLimit
row_at none row_of = none
row_at (some d) row_of = row_of d

unfoldable pub counted :
    ℕ
    → AuthSourceRateLimit
    → String
    → (String → Option AuthSourceRateLimit)
    → Option AuthSourceRateLimit
    → AuthSourceRateLimit
unfolding bumped
counted limit made active row_of none = inserted limit made (row_of active)
counted limit made active row_of (some row) = bumped limit row

abbrev pub unavailable : Error
unavailable =
    platform_error 503 "AUTH_RATE_LIMIT_STATE_UNAVAILABLE"
      "Authentication cannot continue because shared rate-limit state is unavailable."

-- `except (SQLAlchemyError, RuntimeError)`
abbrev pub caught : Error → Error
caught (runtime_error message) = unavailable
caught (key_error key) = key_error key
caught (index_error message) = index_error message
caught (overflow_error message) = overflow_error message
caught (value_error message) = value_error message
caught (platform_error status code detail) = platform_error status code detail

abbrev pub limited_entry : String → AuditEntry
limited_entry operation_id = record {
  action = if str_eq operation_id "login_platform_user" then "LOGIN_FAILED" else "REFRESH_FAILED";
  operation_id = operation_id;
  result_code = "AUTH_SOURCE_RATE_LIMITED";
  actor_id = none;
  target_user_id = none;
  session_id = none;
}

abbrev pub after_audit : ℕ → Table → Result Store → Consumed
after_audit now rows (ok store) = limited (retry_after now) (record { rows = rows; store = store })
after_audit now rows (err e) = failed (caught e)

module _ ⦃rt : Runtime⦄ where
  unfoldable pub charge : ℕ → ℕ → String → List String → String → AuditContext → State → Consumed
  unfolding counted
  charge limit now active accepted operation_id context state =
      let row_of = λ (d : String). state.rows d operation_id (window_of now) in
      let row =
        counted limit (first_row active operation_id now) active row_of
          (row_at (existing_digest (active ∷ accepted) row_of) row_of) in
      let rows = set_row row state.rows in
      if ltb limit row.request_count
      then after_audit now rows (append context (limited_entry operation_id) state.store)
      else permitted (record { rows = rows; store = state.store })

  abbrev pub charge_known :
      Option ℕ → String → List String → String → AuditContext → State → Consumed
  charge_known none active accepted operation_id context state = failed (key_error operation_id)
  charge_known (some limit) active accepted operation_id context state =
      charge limit (rt.clock state.store.reads) active accepted operation_id context
        (record state { store = record state.store { reads = state.store.reads + 1 } })

  -- `digests` of the source are `active ∷ accepted`.
  unfoldable pub consume : String → List String → String → AuditContext → State → Consumed
  unfolding charge
  consume active accepted operation_id context state =
      charge_known (limit_of operation_id) active accepted operation_id context state
