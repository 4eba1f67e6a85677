-- ===== src/Sessions/Login.antt =====
-- `create` with the limit enforced, as a login calls it.
use ai_auto_test_platform.Prelude.{
  ℕ, ◌≤◌, ◌≡◌, refl, ap, ◌∙◌, String, Option, some, List, [], ◌∷◌, length, select, select-All,
  select-passes, All, All-and, All-mono, Bool, true, not, ◌&&◌, leb, arith, Returns, Returns-bind,
  Returns-Ensures,
}
use ai_auto_test_platform.Runtime.{Runtime}
use ai_auto_test_platform.Sessions.Rows.{RefreshSession, Credential, Store, Fits}
use ai_auto_test_platform.Sessions.Service.{
  for_update, find_session, is_open, order_by_issue, mark_expired, Caller, evict, enforce_limit,
  create,
}
use ai_auto_test_platform.Sessions.Keys.{
  Distinct, stored, Holds, IsStored, Distinct-IsStored, select-Distinct, order-All, order-Distinct,
  select-order_length,
}
use ai_auto_test_platform.Sessions.Limit.{evict-bounded, evict-Returns}

module _ (credential_id : String) (now : ℕ) where
  abbrev due : RefreshSession → Bool
  due r = leb r.expires_at now

  abbrev expire_due : List RefreshSession → List RefreshSession
  expire_due = for_update (λ r. is_open credential_id r && due r) (mark_expired now)

  abbrev live : RefreshSession → Bool
  live r = not (due r)

  length-expire_due :
      (rows : List RefreshSession)
      → length (select (is_open credential_id) (expire_due rows))
        ≡ length (select live (select (is_open credential_id) rows))
  unfolding for_update
  length-expire_due [] = refl
  length-expire_due (r ∷ rows) = ground (arith, length-expire_due rows)

  find-expire_due :
      (j : String) (r : RefreshSession) (rows : List RefreshSession)
      → find_session j rows ≡ some r
      → live r ≡ true
      → find_session j (expire_due rows) ≡ some r
  unfolding for_update find_session
  find-expire_due j r [] e h = cc
  find-expire_due j r (x ∷ rows) e h = ground (arith, find-expire_due j r rows)

module _ (credential_id : String) (now : ℕ) (rows : List RefreshSession) (d : Distinct rows) where
  abbrev candidates : List RefreshSession
  candidates = order_by_issue (select (is_open credential_id) rows)

  abbrev unexpired : List RefreshSession
  unexpired = select (live credential_id now) candidates

  abbrev IsCandidate : RefreshSession → Type 0
  IsCandidate r = IsStored rows r × (is_open credential_id r ≡ true)

  candidates-IsCandidate : All IsCandidate candidates
  candidates-IsCandidate = order-All IsCandidate (select (is_open credential_id) rows) (
      All-and (IsStored rows) _ (select (is_open credential_id) rows)
        (select-All (is_open credential_id) (IsStored rows) rows (Distinct-IsStored rows d))
        (select-passes (is_open credential_id) rows))

  unexpired-Holds :
      All (Holds (is_open credential_id) (expire_due credential_id now rows)) unexpired
  unexpired-Holds =
      All-mono (λ r. IsCandidate r × (live credential_id now r ≡ true)) _ unexpired
        (λ r h.
          ap (stored (is_open credential_id))
            (find-expire_due credential_id now r.session_id r rows h.0.0 h.1)
          ∙ h.0.1)
        (All-and IsCandidate _ unexpired
          (select-All (live credential_id now) IsCandidate candidates candidates-IsCandidate)
          (select-passes (live credential_id now) candidates))

-- Before a new session is added the credential has at most four active ones.
enforce_limit-bounded :
    ⦃rt : Runtime⦄ (credential : Credential) (now : ℕ) (caller : Caller) (db : Store)
    → Fits 128 caller.operation_id
    → Distinct db.sessions
    → Returns
        (λ db'. length (select (is_open credential.credential_id) db'.sessions) ≤ 4)
        (enforce_limit credential now caller db)
unfolding enforce_limit
enforce_limit-bounded credential now caller db op d =
    let queue = unexpired credential.credential_id now db.sessions d in
    let marked : Store = record db {
      sessions = expire_due credential.credential_id now db.sessions;
    } in
    Returns-Ensures _ (evict queue now caller marked) (evict-Returns now caller op queue marked) (
      evict-bounded credential.credential_id now caller queue marked
        (unexpired-Holds credential.credential_id now db.sessions d)
        (select-Distinct (live credential.credential_id now) _
          (order-Distinct _ (select-Distinct (is_open credential.credential_id) db.sessions d)))
        (omega (
          arith,
          length-expire_due credential.credential_id now db.sessions,
          select-order_length (live credential.credential_id now)
              (select (is_open credential.credential_id) db.sessions),
        )))

-- A login never leaves a credential with more than five active sessions: from any table with
-- distinct ids, however many are active in it, a `create` that enforces the limit, with an operation
-- text that the audit accepts, succeeds and ends with at most five, the new one included.
pub create-bounded :
    ⦃rt : Runtime⦄ (credential : Credential) (family_id : Option String) (expires_at : Option ℕ)
    (caller : Caller) (db : Store)
    → Fits 128 caller.operation_id
    → Distinct db.sessions
    → Returns
        (λ made. length (select (is_open credential.credential_id) made.2.sessions) ≤ 5)
        (create credential family_id expires_at true caller db)
unfolding create
create-bounded credential family_id expires_at caller db op d =
    Returns-bind (λ db'. length (select (is_open credential.credential_id) db'.sessions) ≤ 4) _
      (enforce_limit credential _ caller _) _ (enforce_limit-bounded credential _ caller _ op d)
      λ db' bound. ground arith
