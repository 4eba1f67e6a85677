-- ===== src/Sessions/Tests.antt =====
-- The theorems on refresh sessions at a concrete table.
use ai_auto_test_platform.Prelude.{
  ◌+◌, ◌≤◌, ◌≡◌, refl, String, none, some, [], ◌∷◌, true, false, not, ◌&&◌, length, select, Returns,
  Ensures, ok, str_eq, arith,
}
use ai_auto_test_platform.Runtime.{Runtime}
use ai_auto_test_platform.Sessions.Rows.{RefreshSession, active, is_active, Credential, Store}
use ai_auto_test_platform.Sessions.Service.{
  Caller, find_session, create, rotate, revoke, compromise_family, revoke_active_for_credential,
  is_open, in_family,
}
use ai_auto_test_platform.Sessions.Login.{create-bounded}
use ai_auto_test_platform.Sessions.Revocation.{
  compromise_family-ends, revoke_active_for_credential-ends,
}
use ai_auto_test_platform.Sessions.Rotation.{revoke_twice, rotate-Rotated, Rotated}

abbrev runtime : Runtime
runtime = record {
  ulid = λ n. "new";
  refresh_token = λ n. "token";
  clock = λ n. n;
  sha256 = λ s. s;
  isoformat = λ n. "2026-07-01T00:00:00";
}

abbrev session_of : String → String → RefreshSession
session_of id family = record {
  session_id = id;
  credential_id = "credential";
  family_id = family;
  token_hash = id;
  session_version = 1;
  credential_version = 1;
  lifecycle_status = active;
  issued_at = 0;
  expires_at = 1000;
  last_used_at = none;
  rotated_at = none;
  revoked_at = none;
  revoke_reason = none;
  replaced_by_session_id = none;
  client_context_hash = none;
  row_version = 0;
  created_at = 0;
  updated_at = 0;
}

abbrev credential : Credential
credential = record { credential_id = "credential"; user_id = "user"; credential_version = 1 }

abbrev caller : Caller
caller = record {
  context = record { correlation_id = "c"; source_context = "test" };
  actor_id = none;
  target_user_id = some "user";
  operation_id = "login_platform_user";
}

abbrev store : Store
store = record {
  sessions =
      session_of "1" "f"
      ∷ session_of "2" "f"
      ∷ session_of "3" "g"
      ∷ session_of "4" "g"
      ∷ session_of "5" "g"
      ∷ session_of "6" "g"
      ∷ [];
  audits = [];
  drawn = 0;
  tokens = 0;
  reads = 0;
}

abbrev two : Store
two = record store { sessions = session_of "1" "f" ∷ session_of "2" "g" ∷ [] }

create-bounded_example :
    Returns
      (λ made. length (select (is_open credential.credential_id) made.2.sessions) ≤ 5)
      (create ⦃rt = runtime⦄ credential none none true caller store)
create-bounded_example =
    create-bounded ⦃rt = runtime⦄ credential none none caller store (omega arith, omega arith)
      (ground arith)

rotate-Rotated_example :
    Returns
      (λ made.
        Rotated (session_of "1" "f") made.0 credential.credential_id two.sessions made.2.sessions)
      (rotate ⦃rt = runtime⦄ (session_of "1" "f") credential 5 caller two)
unfolding find_session
rotate-Rotated_example =
    rotate-Rotated ⦃rt = runtime⦄ (session_of "1" "f") credential 5 caller two (ground arith) refl
      refl refl

revoke_twice_example :
    Ensures
      (λ done. revoke ⦃rt = runtime⦄ "1" "ADMIN" 9 caller done.1 ≡ ok (false, done.1))
      (revoke ⦃rt = runtime⦄ "1" "LOGOUT" 5 caller two)
revoke_twice_example = revoke_twice ⦃rt = runtime⦄ "1" "LOGOUT" 5 caller "ADMIN" 9 caller two

compromise_family-ends_example :
    Returns
      (λ db'.
        (select (λ r. in_family "f" r && is_active r.lifecycle_status) db'.sessions ≡ [])
        × (select (λ r. not (in_family "f" r)) db'.sessions
            ≡ select (λ r. not (in_family "f" r)) store.sessions)
        × (length db'.audits
            ≡ length store.audits + length (select (in_family "f") store.sessions)))
      (compromise_family ⦃rt = runtime⦄ "f" 5 caller store)
compromise_family-ends_example =
    compromise_family-ends ⦃rt = runtime⦄ "f" 5 caller store (omega arith, omega arith)

revoke_active_for_credential-ends_example :
    Returns
      (λ db'.
        (select (is_open "credential") db'.sessions ≡ [])
        × (select (λ r. not (str_eq r.credential_id "credential")) db'.sessions
            ≡ select (λ r. not (str_eq r.credential_id "credential")) store.sessions)
        × (length db'.audits
            ≡ length store.audits + length (select (is_open "credential") store.sessions)))
      (revoke_active_for_credential ⦃rt = runtime⦄ credential "PASSWORD_CHANGED" 5 caller store)
revoke_active_for_credential-ends_example =
    revoke_active_for_credential-ends ⦃rt = runtime⦄ credential "PASSWORD_CHANGED" 5 caller store
      (omega arith, omega arith) (omega arith, omega arith)
