-- ===== src/Sessions/Rows.antt =====
-- The rows of the refresh sessions and of their audit (models.py), and the transaction that holds
-- them: sessions in table order, audit rows newest first.
use Prim.Native.String.{count}
use ai_auto_test_platform.Prelude.{
  ℕ, ◌+◌, ◌≤◌, ◌&&◌, ◌≡◌, length, Returns, Ensures, arith, String, Option, List, ◌∷◌, Bool, true,
  false, leb, Result, ok, require, value_error, ◌>>◌,
}
use ai_auto_test_platform.Runtime.{Runtime}

pub data SessionStatus : Type 0 where
  active rotated revoked expired compromised : SessionStatus
  other : String → SessionStatus

abbrev pub is_active : SessionStatus → Bool
is_active active = true
is_active _ = false

pub record RefreshSession : Type 0 where
  pub session_id : String
  pub credential_id : String
  pub family_id : String
  pub token_hash : String
  pub session_version : ℕ
  pub credential_version : ℕ
  pub lifecycle_status : SessionStatus
  pub issued_at : ℕ
  pub expires_at : ℕ
  pub last_used_at : Option ℕ
  pub rotated_at : Option ℕ
  pub revoked_at : Option ℕ
  pub revoke_reason : Option String
  pub replaced_by_session_id : Option String
  pub client_context_hash : Option String
  pub row_version : ℕ
  pub created_at : ℕ
  pub updated_at : ℕ

-- The columns of `PlatformUserCredential` that the session service reads.
pub record Credential : Type 0 where
  pub credential_id : String
  pub user_id : String
  pub credential_version : ℕ

pub record SecurityAudit : Type 0 where
  pub audit_id : String
  pub action : String
  pub operation_id : String
  pub actor_id : Option String
  pub target_user_id : Option String
  pub session_id : Option String
  pub result_code : String
  pub correlation_id : String
  pub occurred_at : ℕ
  pub source_context_hash : String

-- `drawn`, `tokens` and `reads` count the values taken from `new_ulid`, `new_refresh_token` and
-- `utc_now`.
pub record Store : Type 0 where
  pub sessions : List RefreshSession
  pub audits : List SecurityAudit
  pub drawn : ℕ
  pub tokens : ℕ
  pub reads : ℕ

pub record AuditContext : Type 0 where
  pub correlation_id : String
  pub source_context : String

-- The keyword arguments of `AuthenticationAuditService.append`.
pub record AuditEntry : Type 0 where
  pub action : String
  pub operation_id : String
  pub result_code : String
  pub actor_id : Option String
  pub target_user_id : Option String
  pub session_id : Option String

module _ ⦃rt : Runtime⦄ where
  audit_row : AuditContext → AuditEntry → Store → SecurityAudit
  audit_row context entry db = record {
    audit_id = rt.ulid db.drawn;
    action = entry.action;
    operation_id = entry.operation_id;
    actor_id = entry.actor_id;
    target_user_id = entry.target_user_id;
    session_id = entry.session_id;
    result_code = entry.result_code;
    correlation_id = context.correlation_id;
    occurred_at = rt.clock db.reads;
    source_context_hash = rt.sha256 context.source_context;
  }

  -- `append`: both length checks, then the row with a new id and the time of the call.
  unfoldable pub append : AuditContext → AuditEntry → Store → Result Store
  unfolding audit_row
  append context entry db = do
    require (leb 1 (count entry.operation_id) && leb (count entry.operation_id) 128)
        (value_error "audit operation id length must be between 1 and 128")
    require (leb 1 (count entry.result_code) && leb (count entry.result_code) 64)
        (value_error "audit result code length must be between 1 and 64")
    ok (record db {
      audits = audit_row context entry db ∷ db.audits;
      drawn = db.drawn + 1;
      reads = db.reads + 1;
    })

-- A text of at least one and at most `n` characters.
abbrev pub Fits : ℕ → String → Type 0
Fits n text = (1 ≤ count text) × (count text ≤ n)

-- What `append` leaves of a store: one row more, and the sessions as they were.
pub record Appended (db db' : Store) : Type 0 where
  pub sessions : db'.sessions ≡ db.sessions
  pub audits : length db'.audits ≡ length db.audits + 1

pub append-Appended :
    ⦃rt : Runtime⦄ (context : AuditContext) (entry : AuditEntry) (db : Store)
    → Fits 128 entry.operation_id
    → Fits 64 entry.result_code
    → Returns (Appended db) (append context entry db)
unfolding append
append-Appended context entry db op code = ground arith

pub append-sessions :
    ⦃rt : Runtime⦄ (context : AuditContext) (entry : AuditEntry) (db : Store)
    → Ensures (λ db'. db'.sessions ≡ db.sessions) (append context entry db)
unfolding append
append-sessions context entry db = ground arith
