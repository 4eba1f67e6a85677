-- ===== src/Sessions/Limit.antt =====
-- The eviction of the oldest sessions by `create` of session_service.py.
use ai_auto_test_platform.Prelude.{
  ℕ, ◌≤◌, ◌<◌, ◌≡◌, refl, ap, sym, subst, ◌∙◌, String, Option, none, some, List, [], ◌∷◌, length,
  select, All, Bool, true, false, false≢true, leb, str_eq, eq_iff, arith, Ensures, Ensures-bind,
  Ensures-if, Returns, Returns-bind, Returns-if,
}
use ai_auto_test_platform.Runtime.{Runtime}
use ai_auto_test_platform.Sessions.Rows.{
  RefreshSession, Store, is_active, append-sessions, Fits, Appended, append-Appended,
}
use ai_auto_test_platform.Sessions.Service.{
  for_update, has_id, find_session, is_open, mark_revoked, Caller, revoke_found, revoke,
  audit_revoked, evict,
}
use ai_auto_test_platform.Sessions.Keys.{Distinct, stored, Holds}

open_active :
    (credential_id : String) (r : RefreshSession)
    → is_open credential_id r ≡ true
    → is_active r.lifecycle_status ≡ true
open_active credential_id r h = ground arith

module _ (credential_id id reason : String) (now : ℕ) where
  abbrev mine : RefreshSession → Bool
  mine = is_open credential_id

  abbrev revoke_in : List RefreshSession → List RefreshSession
  revoke_in = for_update (has_id id) (mark_revoked reason now)

  open_mono :
      (rows : List RefreshSession)
      → length (select mine (revoke_in rows)) ≤ length (select mine rows)
  unfolding for_update
  open_mono [] = omega arith
  open_mono (r ∷ rows) = ground (arith, open_mono rows)

  -- Revoking the stored row of an id, if it is active, leaves one active session fewer at least.
  open_fewer :
      (rows : List RefreshSession)
      → stored mine (find_session id rows) ≡ true
      → length (select mine (revoke_in rows)) < length (select mine rows)
  unfolding for_update find_session
  open_fewer [] h = cc
  open_fewer (r ∷ rows) h = ground (arith, open_fewer rows, open_mono rows)

  -- Other ids keep their stored rows.
  find_apart :
      (j : String) (rows : List RefreshSession)
      → str_eq id j ≡ false
      → find_session j (revoke_in rows) ≡ find_session j rows
  unfolding for_update find_session
  find_apart j [] h = refl
  find_apart j (r ∷ rows) h =
      ground
        (arith, find_apart j rows h, eq_iff r.session_id id, eq_iff id j, eq_iff r.session_id j)

record Evicted (credential_id id : String) (before after : List RefreshSession) : Type 0 where
  fewer :
      length (select (is_open credential_id) after) < length (select (is_open credential_id) before)
  apart : (j : String) → str_eq id j ≡ false → find_session j after ≡ find_session j before

Holds-kept :
    (credential_id id : String) (before after queue : List RefreshSession)
    → Evicted credential_id id before after
    → All (λ r. str_eq id r.session_id ≡ false) queue
    → All (Holds (is_open credential_id) before) queue
    → All (Holds (is_open credential_id) after) queue
Holds-kept credential_id id before after [] e apart h = tt
Holds-kept credential_id id before after (r ∷ queue) e apart h = (
  ap (stored (is_open credential_id)) (e.apart r.session_id apart.0) ∙ h.0,
  Holds-kept credential_id id before after queue e apart.1 h.1,
)

module _ ⦃rt : Runtime⦄ (credential_id : String) (now : ℕ) (caller : Caller) where
  revoke_found-Evicted :
      (found : Option RefreshSession) (id reason : String) (db : Store)
      → found ≡ find_session id db.sessions
      → stored (is_open credential_id) found ≡ true
      → Ensures
          (λ done. Evicted credential_id id db.sessions done.1.sessions)
          (revoke_found found id reason now caller db)
  unfolding revoke_found
  revoke_found-Evicted none id reason db e h = absurd (false≢true h)
  revoke_found-Evicted (some r) id reason db e h =
      Ensures-if _ (is_active r.lifecycle_status) _ _
        (λ _.
          Ensures-bind _ _ (audit_revoked caller reason id _) _ (append-sessions caller.context _ _)
            λ db' kept. record {
              fewer =
                  subst
                    (λ rows.
                      length (select (is_open credential_id) rows)
                      < length (select (is_open credential_id) db.sessions))
                    (sym kept)
                    (open_fewer credential_id id reason now db.sessions
                      (ap (stored (is_open credential_id)) (sym e) ∙ h));
              apart = λ j ne.
                  ap (find_session j) kept
                  ∙ find_apart credential_id id reason now j db.sessions ne;
            })
        λ inactive. absurd (false≢true (sym inactive ∙ open_active credential_id r h))

  pub evict-bounded :
      (queue : List RefreshSession) (db : Store)
      → All (Holds (is_open credential_id) db.sessions) queue
      → Distinct queue
      → length (select (is_open credential_id) db.sessions) ≤ length queue
      → Ensures
          (λ db'. length (select (is_open credential_id) db'.sessions) ≤ 4)
          (evict queue now caller db)
  unfolding evict revoke
  evict-bounded [] db held d bound = omega (arith, bound)
  evict-bounded (oldest ∷ rest) db held d bound =
      Ensures-if _ (leb 5 (length (oldest ∷ rest))) _ _
        (λ _.
          Ensures-bind (λ done. Evicted credential_id oldest.session_id db.sessions done.1.sessions)
            _ (revoke oldest.session_id "SESSION_LIMIT" now caller db) _
            (revoke_found-Evicted (find_session oldest.session_id db.sessions) oldest.session_id
              "SESSION_LIMIT" db refl held.0)
            λ done e.
              evict-bounded rest done.1
                (Holds-kept credential_id oldest.session_id db.sessions done.1.sessions rest e d.0
                  held.1)
                d.1 (omega (arith, e.fewer, bound)))
        λ few. ground arith

module _ ⦃rt : Runtime⦄ (now : ℕ) (caller : Caller) (op : Fits 128 caller.operation_id) where
  revoke_found-Returns :
      (found : Option RefreshSession) (id reason : String) (db : Store)
      → Fits 64 reason
      → Returns (λ _. Unit {0}) (revoke_found found id reason now caller db)
  unfolding revoke_found
  revoke_found-Returns none id reason db fits = tt
  revoke_found-Returns (some r) id reason db fits =
      Returns-if _ (is_active r.lifecycle_status) _ _
        (λ _.
          Returns-bind (Appended _) _ (audit_revoked caller reason id _) _
            (append-Appended caller.context _ _ op fits) λ _ _. tt)
        λ _. tt

  -- With an operation text that the audit accepts the eviction does not fail.
  pub evict-Returns :
      (queue : List RefreshSession) (db : Store)
      → Returns (λ _. Unit {0}) (evict queue now caller db)
  unfolding evict revoke
  evict-Returns [] db = tt
  evict-Returns (oldest ∷ rest) db =
      Returns-if _ (leb 5 (length (oldest ∷ rest))) _ _
        (λ _.
          Returns-bind (λ _. Unit {0}) _ (revoke oldest.session_id "SESSION_LIMIT" now caller db) _
            (revoke_found-Returns (find_session oldest.session_id db.sessions) oldest.session_id
              "SESSION_LIMIT" db (omega arith))
            λ done _. evict-Returns rest done.1)
        λ _. tt
