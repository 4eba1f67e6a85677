-- ===== src/Idempotency.antt =====
-- Idempotent commands: `IdempotencyCoordinator` of idempotency.py and `IdempotencyRecord` of models.py.
-- The table is a map from its primary key. A claim has two steps, since another transaction can
-- commit between the first read of the keys and the insert: `look` and `act`.
pub mod Search
pub mod Replay
pub mod Once
pub mod Race
pub mod Framing
pub mod Commands
mod Tests
use ai_auto_test_platform.Prelude.{
  ℕ, ◌+◌, ◌*◌, String, Option, none, some, List, [], ◌∷◌, Bool, true, false, not, ◌&&◌, ◌||◌, ltb,
  ◌==◌, str_eq, if◌then◌else◌, Result, ok, err, ◌>>◌, require, Error, runtime_error, platform_error,
}

-- `J` is the type of JSON documents.
pub record IdempotencyRecord (J : Type 0) : Type 0 where
  pub idempotency_key : String
  pub contract_version : ℕ
  pub principal_id : Option String
  pub operation_id : String
  pub request_hash : String
  pub response_status : Option ℕ
  pub response_json : Option J
  pub completed_at : Option ℕ
  pub expires_at : ℕ

-- What `AuthHmacKeyRing.hex_digests` returns: the active key's digest, then those of accepted keys.
pub record Digests : Type 0 where
  pub active : String
  pub accepted : List String

-- The arguments of `_claim`.
pub record Request : Type 0 where
  pub principal_id : String
  pub operation_id : String
  pub raw_key : String
  pub storage_keys : Digests
  pub fingerprints : Digests
  pub terminal_status : Option ℕ

abbrev pub member : String → List String → Bool
member k [] = false
member k (x ∷ xs) = let rest = member k xs in str_eq k x || rest

abbrev pub candidate_keys : Request → List String
candidate_keys q = q.raw_key ∷ q.storage_keys.active ∷ q.storage_keys.accepted

abbrev pub all_digests : Digests → List String
all_digests d = d.active ∷ d.accepted

-- timedelta(days=1), in microseconds
abbrev pub one_day : ℕ
one_day = 86400 * 1000000

-- `_conflict()`
abbrev pub conflict : Error
conflict =
    platform_error 409 "AUTH_IDEMPOTENCY_KEY_REUSED_WITH_DIFFERENT_REQUEST"
      "The idempotency key was reused with a different request."

abbrev pub incomplete : Error
incomplete =
    platform_error 409 "AUTH_CONCURRENCY_CONFLICT"
      "The idempotent command has not reached a terminal state."

abbrev pub same_principal : Option String → String → Bool
same_principal none p = false
same_principal (some x) p = str_eq x p

abbrev pub given : Option ℕ → Bool
given none = false
given (some n) = true

-- `terminal_status is not None and response_status != terminal_status`
abbrev pub wrong_end : Option ℕ → Option ℕ → Bool
wrong_end none status = false
wrong_end (some t) none = true
wrong_end (some t) (some s) = not (s == t)

abbrev pub Table : Type 0 → Type 0
Table J = String → Option (IdempotencyRecord J)

-- What a claim returns: the row, whether it is replayed, and the table.
abbrev pub Claimed : Type 0 → Type 0
Claimed J = IdempotencyRecord J × (Bool × Table J)

-- The callback answers whether it recovered, and it may have changed the row.
abbrev pub Recover : Type 0 → Type 0
Recover J = Option (IdempotencyRecord J → Bool × IdempotencyRecord J)

module _ {J : Type 0} where
  abbrev pub set_row : String → IdempotencyRecord J → Table J → Table J
  set_row key r table = λ k. if str_eq key k then some r else table k

  abbrev pub present : Option (IdempotencyRecord J) → Bool
  present none = false
  present (some r) = true

  abbrev pub live : ℕ → Option (IdempotencyRecord J) → Bool
  live now none = false
  live now (some r) = ltb now r.expires_at

  -- `_validate`
  unfoldable pub validate : IdempotencyRecord J → Request → Result (Unit {0})
  validate r q =
      require
        ((r.contract_version == 2)
          && (same_principal r.principal_id q.principal_id
              && (str_eq r.operation_id q.operation_id
                  && member r.request_hash (all_digests q.fingerprints))))
        conflict

  -- `complete`
  abbrev pub complete : IdempotencyRecord J → ℕ → Option J → ℕ → IdempotencyRecord J
  complete r status response_json now = record r {
    response_status = some status;
    response_json = response_json;
    completed_at = some now;
    expires_at = now + one_day;
  }

  -- The values of both INSERT statements.
  abbrev pub new_record : Request → ℕ → IdempotencyRecord J
  new_record q now = record {
    idempotency_key = q.storage_keys.active;
    contract_version = 2;
    principal_id = some q.principal_id;
    operation_id = q.operation_id;
    request_hash = q.fingerprints.active;
    response_status = none;
    response_json = none;
    completed_at = none;
    expires_at = now + one_day;
  }

  abbrev pub renewed : Request → ℕ → IdempotencyRecord J → IdempotencyRecord J
  renewed q now r = record r {
    principal_id = some q.principal_id;
    operation_id = q.operation_id;
    request_hash = q.fingerprints.active;
    response_status = none;
    response_json = none;
    completed_at = none;
    expires_at = now + one_day;
  }

  abbrev pub finished : IdempotencyRecord J → Bool
  finished r = given r.response_status && given r.completed_at

  unfoldable pub replayed : Request → IdempotencyRecord J → Table J → Result (Claimed J)
  replayed q r table =
      if wrong_end q.terminal_status r.response_status then err conflict else ok (r, (true, table))

  unfoldable pub recovered :
      IdempotencyRecord J → Bool × IdempotencyRecord J → Table J → Result (Claimed J)
  recovered r (done, r') table =
      if done
      then (if finished r'
          then ok (r', (true, set_row r.idempotency_key r' table))
          else err (runtime_error "incomplete recovery did not complete idempotency"))
      else err incomplete

  unfoldable pub recover_or_refuse : Recover J → IdempotencyRecord J → Table J → Result (Claimed J)
  recover_or_refuse none r table = err incomplete
  recover_or_refuse (some recover) r table = recovered r (recover r) table

  -- A live row: it is replayed, recovered or refused.
  unfoldable pub replay : Request → Recover J → IdempotencyRecord J → Table J → Result (Claimed J)
  replay q recover r table =
      validate r q >> (if finished r then replayed q r table else recover_or_refuse recover r table)

  -- The first candidate key whose locked row has not expired. `rows_by_key` holds `locked`.
  unfoldable pub next_live : List String → List String → Table J → ℕ → Option (IdempotencyRecord J)
  next_live [] locked table now = none
  next_live (k ∷ keys) locked table now =
      let rest = next_live keys locked table now in
      if member k locked && live now (table k) then table k else rest

  -- The row that the last SELECT finds under the active key.
  unfoldable pub found_or_inserted :
      Request → Option (IdempotencyRecord J) → Table J → Result (Claimed J)
  found_or_inserted q none table = err (runtime_error "idempotency claim was not materialized")
  found_or_inserted q (some r) table =
      validate r q >> (if finished r then replayed q r table else ok (r, (false, table)))

  -- INSERT ... ON DUPLICATE KEY UPDATE that changes nothing
  abbrev pub upsert : Request → ℕ → Table J → Table J
  upsert q now table =
      if present (table q.storage_keys.active)
      then table
      else set_row q.storage_keys.active (new_record q now) table

  unfoldable pub insert_or_read : Request → ℕ → Table J → Result (Claimed J)
  insert_or_read q now table =
      let table' = upsert q now table in found_or_inserted q (table' q.storage_keys.active) table'

  -- No candidate is live: the active key's locked row of version 2 is used again, or one is inserted.
  unfoldable pub reuse : Request → ℕ → Option (IdempotencyRecord J) → Table J → Result (Claimed J)
  reuse q now none table = insert_or_read q now table
  reuse q now (some r) table =
      if r.contract_version == 2
      then (let r' = renewed q now r in ok (r', (false, set_row q.storage_keys.active r' table)))
      else insert_or_read q now table

  unfoldable pub claim_live :
      Request
      → Recover J
      → ℕ
      → Option (IdempotencyRecord J)
      → Option (IdempotencyRecord J)
      → Table J
      → Result (Claimed J)
  claim_live q recover now (some r) mine table = replay q recover r table
  claim_live q recover now none mine table = reuse q now mine table

  unfoldable pub claim_locked : Request → Recover J → ℕ → List String → Table J → Result (Claimed J)
  claim_locked q recover now locked table =
      claim_live q recover now (next_live (candidate_keys q) locked table now)
        (if member q.storage_keys.active locked then table q.storage_keys.active else none) table

  -- `existing_keys`
  unfoldable pub look : List String → Table J → List String
  look [] table = []
  look (k ∷ keys) table = let rest = look keys table in if present (table k) then k ∷ rest else rest

  -- INSERT IGNORE: a row of the active key that another transaction inserted is locked and read.
  unfoldable pub insert_ignore : Request → Recover J → ℕ → Bool → Table J → Result (Claimed J)
  insert_ignore q recover now true table =
      claim_locked q recover now (q.storage_keys.active ∷ []) table
  insert_ignore q recover now false table =
      let r = new_record q now in ok (r, (false, set_row q.storage_keys.active r table))

  unfoldable pub act : Request → Recover J → ℕ → List String → Table J → Result (Claimed J)
  act q recover now [] table =
      insert_ignore q recover now (present (table q.storage_keys.active)) table
  act q recover now (k ∷ keys) table = claim_locked q recover now (k ∷ keys) table

  -- `_claim` with no commit of another transaction in between
  unfoldable pub claim : Request → Recover J → ℕ → Table J → Result (Claimed J)
  claim q recover now table = act q recover now (look (candidate_keys q) table) table
