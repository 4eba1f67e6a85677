-- ===== src/Sessions/Service.antt =====
-- `SessionService` of session_service.py. The rows that a query returns are changed in place, so a
-- loop that changes each of them is a map over the table; a row passed as an argument is found again
-- by its primary key.
use Prim.Native.String.{compare}
use text.Mathlib.Text.{is_le}
use ai_auto_test_platform.Prelude.{
  ℕ, ◌+◌, ◌*◌, ◌&&◌, ◌||◌, not, String, Option, none, some, List, [], ◌∷◌, length, select, Bool,
  true, false, ltb, leb, str_eq, if◌then◌else◌, Result, ok, ◌>>=◌,
}
use ai_auto_test_platform.Runtime.{Runtime}
use ai_auto_test_platform.Sessions.Rows.{
  active, rotated, revoked, expired, compromised, is_active, RefreshSession, Credential, Store,
  AuditContext, append,
}

-- `for row in rows that p selects: change row`
unfoldable pub for_update :
    (RefreshSession → Bool)
    → (RefreshSession → RefreshSession)
    → List RefreshSession
    → List RefreshSession
for_update p change [] = []
for_update p change (r ∷ rs) = (if p r then change r else r) ∷ for_update p change rs

abbrev pub has_id : String → RefreshSession → Bool
has_id id r = str_eq r.session_id id

unfoldable pub find_session : String → List RefreshSession → Option RefreshSession
find_session id [] = none
find_session id (r ∷ rs) = if has_id id r then some r else find_session id rs

-- The active sessions of a credential.
abbrev pub is_open : String → RefreshSession → Bool
is_open credential_id r = str_eq r.credential_id credential_id && is_active r.lifecycle_status

abbrev pub in_family : String → RefreshSession → Bool
in_family family_id r = str_eq r.family_id family_id

-- `ORDER BY` a number and `ORDER BY session_id`, as insertion sorts.
unfoldable pub insert_by_issue : RefreshSession → List RefreshSession → List RefreshSession
insert_by_issue r [] = r ∷ []
insert_by_issue r (q ∷ qs) =
    if leb r.issued_at q.issued_at then r ∷ q ∷ qs else q ∷ insert_by_issue r qs

unfoldable pub order_by_issue : List RefreshSession → List RefreshSession
unfolding insert_by_issue
order_by_issue [] = []
order_by_issue (r ∷ rs) = insert_by_issue r (order_by_issue rs)

unfoldable pub insert_by_id : RefreshSession → List RefreshSession → List RefreshSession
insert_by_id r [] = r ∷ []
insert_by_id r (q ∷ qs) =
    if is_le (compare r.session_id q.session_id) then r ∷ q ∷ qs else q ∷ insert_by_id r qs

unfoldable pub order_by_id : List RefreshSession → List RefreshSession
unfolding insert_by_id
order_by_id [] = []
order_by_id (r ∷ rs) = insert_by_id r (order_by_id rs)

-- `_mark_expired`
abbrev pub mark_expired : ℕ → RefreshSession → RefreshSession
mark_expired now r = record r {
  lifecycle_status = expired;
  row_version = r.row_version + 1;
  updated_at = now;
}

abbrev pub mark_revoked : String → ℕ → RefreshSession → RefreshSession
mark_revoked reason now r = record r {
  lifecycle_status = revoked;
  revoked_at = some now;
  revoke_reason = some reason;
  row_version = r.row_version + 1;
}

abbrev pub mark_compromised : ℕ → RefreshSession → RefreshSession
mark_compromised now r = record r {
  lifecycle_status = compromised;
  revoked_at = some now;
  revoke_reason = some "REFRESH_REPLAY";
  row_version = r.row_version + 1;
}

abbrev pub mark_rotated : String → ℕ → RefreshSession → RefreshSession
mark_rotated replacement now r = record r {
  lifecycle_status = rotated;
  last_used_at = some now;
  rotated_at = some now;
  replaced_by_session_id = some replacement;
  row_version = r.row_version + 1;
}

-- The keyword arguments that the audit of a revocation needs.
pub record Caller : Type 0 where
  pub context : AuditContext
  pub actor_id : Option String
  pub target_user_id : Option String
  pub operation_id : String

module _ ⦃rt : Runtime⦄ where
  abbrev pub audit_revoked : Caller → String → String → Store → Result Store
  audit_revoked caller result_code session_id db =
      append caller.context
        (record {
          action = "SESSION_REVOKED";
          operation_id = caller.operation_id;
          result_code = result_code;
          actor_id = caller.actor_id;
          target_user_id = caller.target_user_id;
          session_id = some session_id;
        })
        db

  unfoldable pub revoke_found :
      Option RefreshSession → String → String → ℕ → Caller → Store → Result (Bool × Store)
  revoke_found none id reason now caller db = ok (false, db)
  revoke_found (some r) id reason now caller db =
      if is_active r.lifecycle_status
      then (do
        let sessions' = for_update (has_id id) (mark_revoked reason now) db.sessions
        db' ← audit_revoked caller reason id (record db { sessions = sessions' })
        ok (true, db'))
      else ok (false, db)

  -- `revoke` of the row with this id: whether it was active, and the store after it.
  unfoldable pub revoke : String → String → ℕ → Caller → Store → Result (Bool × Store)
  unfolding revoke_found
  revoke id reason now caller db =
      revoke_found (find_session id db.sessions) id reason now caller db

  -- `while len(unexpired) >= 5: revoke the first`
  unfoldable pub evict : List RefreshSession → ℕ → Caller → Store → Result Store
  evict [] now caller db = ok db
  evict (oldest ∷ rest) now caller db =
      let next : Result Store = do
        done ← revoke oldest.session_id "SESSION_LIMIT" now caller db
        evict rest now caller (done.1)
      in if leb 5 (length (oldest ∷ rest)) then next else ok db

  abbrev is_due : ℕ → RefreshSession → Bool
  is_due now r = leb r.expires_at now

  -- The serial clean-up before a session is created.
  unfoldable pub enforce_limit : Credential → ℕ → Caller → Store → Result Store
  unfolding evict order_by_issue for_update
  enforce_limit credential now caller db =
      let candidates = order_by_issue (select (is_open credential.credential_id) db.sessions) in
      let unexpired = select (λ r. not (is_due now r)) candidates in
      evict unexpired now caller (record db {
        sessions =
            for_update (λ r. is_open credential.credential_id r && is_due now r) (mark_expired now)
              db.sessions;
      })

  -- `family_id or session_id`: None and the empty text give the new id.
  abbrev or_id : Option String → String → String
  or_id none id = id
  or_id (some family) id = if str_eq family "" then id else family

  abbrev or_week : Option ℕ → ℕ → ℕ
  or_week none now = now + 604800 * 1000000
  or_week (some at) now = at

  abbrev context_hash : String → Option String
  context_hash source = if str_eq source "" then none else some (rt.sha256 source)

  abbrev pub new_row :
      Credential → AuditContext → Option String → Option ℕ → ℕ → Store → RefreshSession
  new_row credential context family_id expires_at now db = record {
    session_id = rt.ulid db.drawn;
    credential_id = credential.credential_id;
    family_id = or_id family_id (rt.ulid db.drawn);
    token_hash = rt.sha256 (rt.refresh_token db.tokens);
    session_version = 1;
    credential_version = credential.credential_version;
    lifecycle_status = active;
    issued_at = now;
    expires_at = or_week expires_at now;
    last_used_at = none;
    rotated_at = none;
    revoked_at = none;
    revoke_reason = none;
    replaced_by_session_id = none;
    client_context_hash = context_hash context.source_context;
    row_version = 0;
    created_at = now;
    updated_at = now;
  }

  -- A new session of a credential, with its raw token; `enforce` is `enforce_limit`.
  add_new :
      Credential
      → AuditContext
      → Option String
      → Option ℕ
      → ℕ
      → Store
      → RefreshSession × String × Store
  add_new credential context family_id expires_at now db =
      let row = new_row credential context family_id expires_at now db in
      (
        row,
        rt.refresh_token db.tokens,
        record db { sessions = row ∷ db.sessions; drawn = db.drawn + 1; tokens = db.tokens + 1 },
      )

  unfoldable pub create :
      Credential
      → Option String
      → Option ℕ
      → Bool
      → Caller
      → Store
      → Result (RefreshSession × String × Store)
  unfolding add_new
  create credential family_id expires_at enforce caller db = do
    let now = rt.clock db.reads
    let read = record db { reads = db.reads + 1 }
    db' ← if enforce then enforce_limit credential now caller read else ok read
    ok (add_new credential caller.context family_id expires_at now db')

  -- The old row is changed after its replacement has been written.
  unfoldable pub rotate :
      RefreshSession → Credential → ℕ → Caller → Store → Result (RefreshSession × String × Store)
  unfolding create for_update
  rotate current credential now caller db = do
    (replacement, token, db') ←
        create credential (some current.family_id) (some current.expires_at) false caller db
    ok (
      replacement,
      token,
      record db' {
        sessions =
            for_update (has_id current.session_id) (mark_rotated replacement.session_id now)
              db'.sessions;
      },
    )

  -- `expire_if_due` of a row of the table.
  unfoldable pub expire_if_due : RefreshSession → ℕ → Caller → Store → Result (Bool × Store)
  unfolding for_update
  expire_if_due session now caller db =
      if not (is_active session.lifecycle_status) || ltb now session.expires_at
      then ok (false, db)
      else (do
        let sessions' = for_update (has_id session.session_id) (mark_expired now) db.sessions
        db' ← audit_revoked caller "EXPIRED" session.session_id (record db { sessions = sessions' })
        ok (true, db'))

  -- One audit row for each session, in this order.
  unfoldable pub audit_each : String → List RefreshSession → Caller → Store → Result Store
  audit_each result_code [] caller db = ok db
  audit_each result_code (r ∷ rs) caller db = do
    db' ← audit_revoked caller result_code r.session_id db
    audit_each result_code rs caller db'

  unfoldable pub compromise_family : String → ℕ → Caller → Store → Result Store
  unfolding audit_each for_update order_by_id
  compromise_family family_id now caller db =
      audit_each "REFRESH_REPLAY" (order_by_id (select (in_family family_id) db.sessions)) caller
        (record db {
          sessions = for_update (in_family family_id) (mark_compromised now) db.sessions;
        })

  unfoldable pub revoke_active_for_credential :
      Credential → String → ℕ → Caller → Store → Result Store
  unfolding audit_each for_update order_by_id
  revoke_active_for_credential credential reason now caller db =
      let mine = is_open credential.credential_id in
      audit_each reason (order_by_id (select mine db.sessions)) caller
        (record db { sessions = for_update mine (mark_revoked reason now) db.sessions })
