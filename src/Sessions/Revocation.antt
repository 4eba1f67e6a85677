-- ===== src/Sessions/Revocation.antt =====
-- The effects of `compromise_family` and `revoke_active_for_credential` of session_service.py.
use ai_auto_test_platform.Prelude.{
  ℕ, ◌+◌, ◌≡◌, refl, ap, ◌∙◌, String, List, [], ◌∷◌, length, select, not, ◌&&◌, arith, str_eq,
  Returns, Returns-bind, Returns-mono,
}
use ai_auto_test_platform.Runtime.{Runtime}
use ai_auto_test_platform.Sessions.Rows.{
  RefreshSession, Credential, Store, is_active, Fits, Appended, append-Appended,
}
use ai_auto_test_platform.Sessions.Service.{
  for_update, is_open, in_family, order_by_id, insert_by_id, audit_each, audit_revoked, Caller,
  mark_revoked, mark_compromised, compromise_family, revoke_active_for_credential,
}
use ai_auto_test_platform.Sessions.Table.{select-for_update_none, select-for_update_apart}

length-insert_by_id :
    (r : RefreshSession) (rs : List RefreshSession) → length (insert_by_id r rs) ≡ length rs + 1
unfolding insert_by_id
length-insert_by_id r [] = omega arith
length-insert_by_id r (q ∷ qs) = ground (arith, length-insert_by_id r qs)

length-order_by_id : (rs : List RefreshSession) → length (order_by_id rs) ≡ length rs
unfolding order_by_id
length-order_by_id [] = refl
length-order_by_id (r ∷ rs) =
    omega (arith, length-insert_by_id r (order_by_id rs), length-order_by_id rs)

record Audited (n : ℕ) (db db' : Store) : Type 0 where
  sessions : db'.sessions ≡ db.sessions
  audits : length db'.audits ≡ length db.audits + n

module _ ⦃rt : Runtime⦄ where
  audit_each-Audited :
      (code : String) (rs : List RefreshSession) (caller : Caller) (db : Store)
      → Fits 128 caller.operation_id
      → Fits 64 code
      → Returns (Audited (length rs) db) (audit_each code rs caller db)
  unfolding audit_each
  audit_each-Audited code [] caller db op fits = record { sessions = refl; audits = omega arith }
  audit_each-Audited code (r ∷ rs) caller db op fits =
      Returns-bind (Appended db) _ (audit_revoked caller code r.session_id db) _
        (append-Appended caller.context _ db op fits)
        λ db₁ one.
          Returns-mono (Audited (length rs) db₁) _ (audit_each code rs caller db₁)
            (audit_each-Audited code rs caller db₁ op fits)
            λ db₂ rest. record {
              sessions = rest.sessions ∙ one.sessions;
              audits = omega (arith, rest.audits, one.audits);
            }

  -- With an operation text that the audit accepts, `compromise_family` does not fail, and after it no
  -- session of the family is active, the sessions of other families are what they were, and there is
  -- one audit row more for each session of the family.
  pub compromise_family-ends :
      (family_id : String) (now : ℕ) (caller : Caller) (db : Store)
      → Fits 128 caller.operation_id
      → Returns
          (λ db'.
            (select (λ r. in_family family_id r && is_active r.lifecycle_status) db'.sessions ≡ [])
            × (select (λ r. not (in_family family_id r)) db'.sessions
                ≡ select (λ r. not (in_family family_id r)) db.sessions)
            × (length db'.audits
                ≡ length db.audits + length (select (in_family family_id) db.sessions)))
          (compromise_family family_id now caller db)
  unfolding compromise_family
  compromise_family-ends family_id now caller db op =
      let family = in_family family_id in
      let changed = for_update family (mark_compromised now) db.sessions in
      let rows = order_by_id (select family db.sessions) in
      Returns-mono (Audited (length rows) (record db { sessions = changed })) _
        (audit_each "REFRESH_REPLAY" rows caller (record db { sessions = changed }))
        (audit_each-Audited "REFRESH_REPLAY" rows caller _ op (omega arith))
        λ db' done. (
          ap (select _) done.sessions
              ∙ select-for_update_none family _ (mark_compromised now) db.sessions
                  (λ r. ground arith) (λ r h. ground arith),
          ap (select _) done.sessions
              ∙ select-for_update_apart family _ (mark_compromised now) db.sessions
                  (λ r h. ground arith) (λ r h. ground arith),
          omega (arith, done.audits, length-order_by_id (select family db.sessions)),
        )

  -- With operation and reason texts that the audit accepts, `revoke_active_for_credential` does not
  -- fail, and after it the credential has no active session, the sessions of other credentials are
  -- what they were, and there is one audit row more for each session that was active.
  pub revoke_active_for_credential-ends :
      (credential : Credential) (reason : String) (now : ℕ) (caller : Caller) (db : Store)
      → Fits 128 caller.operation_id
      → Fits 64 reason
      → Returns
          (λ db'.
            (select (is_open credential.credential_id) db'.sessions ≡ [])
            × (select (λ r. not (str_eq r.credential_id credential.credential_id)) db'.sessions
                ≡ select (λ r. not (str_eq r.credential_id credential.credential_id)) db.sessions)
            × (length db'.audits
                ≡ length db.audits
                  + length (select (is_open credential.credential_id) db.sessions)))
          (revoke_active_for_credential credential reason now caller db)
  unfolding revoke_active_for_credential
  revoke_active_for_credential-ends credential reason now caller db op fits =
      let mine = is_open credential.credential_id in
      let changed = for_update mine (mark_revoked reason now) db.sessions in
      let rows = order_by_id (select mine db.sessions) in
      Returns-mono (Audited (length rows) (record db { sessions = changed })) _
        (audit_each reason rows caller (record db { sessions = changed }))
        (audit_each-Audited reason rows caller _ op fits)
        λ db' done. (
          ap (select _) done.sessions
              ∙ select-for_update_none mine _ (mark_revoked reason now) db.sessions
                  (λ r. ground arith) (λ r h. ground arith),
          ap (select _) done.sessions
              ∙ select-for_update_apart mine _ (mark_revoked reason now) db.sessions
                  (λ r h. ground arith) (λ r h. ground arith),
          omega (arith, done.audits, length-order_by_id (select mine db.sessions)),
        )
