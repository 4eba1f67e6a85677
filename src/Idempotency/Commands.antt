-- ===== src/Idempotency/Commands.antt =====
-- The two claims that callers make: `claim` and `claim_change_password` of idempotency.py, with
-- `hex_digests` of auth_hmac.py.
use ai_auto_test_platform.Prelude.{
  ℕ, ◌≤◌, ◌≡◌, refl, subst, ◌++◌, String, Option, none, some, List, [], ◌∷◌, map, select, Result,
  ok, err, ◌>>=◌, Ensures, index_error, overflow_error,
}
use ai_auto_test_platform.KeyRing.{MasterKey, KeyRing, is_active_key, load, digests}
use ai_auto_test_platform.KeyRing.Load.{is_previous, HasActive, load-HasActive}
use ai_auto_test_platform.Idempotency.{Digests, Request, Table, Claimed, Recover, claim}
use ai_auto_test_platform.Idempotency.Framing.{framed}

-- A tuple of digests, whose first one `_claim` takes by its index.
abbrev pub as_digests : List String → Result Digests
as_digests [] = err (index_error "tuple index out of range")
as_digests (d ∷ ds) = ok (record { active = d; accepted = ds })

abbrev pub framed_bytes : Option (List ℕ) → Result (List ℕ)
framed_bytes none = err (overflow_error "int too big to convert")
framed_bytes (some bytes) = ok bytes

abbrev pub request_of : String → String → String → Option ℕ → Digests → Digests → Request
request_of principal_id operation_id raw_key terminal_status storage_keys fingerprints = record {
  principal_id = principal_id;
  operation_id = operation_id;
  raw_key = raw_key;
  storage_keys = storage_keys;
  fingerprints = fingerprints;
  terminal_status = terminal_status;
}

abbrev pub storage_domain : String
storage_domain = "idempotency-storage-key"

unfoldable pub hex_digests :
    (List ℕ → String → List ℕ → String) → KeyRing → ℕ → String → List ℕ → Result Digests
hex_digests mac ring at domain value = digests mac ring domain value at >>= as_digests

-- The two times are those of the digests, of the storage key and of the fingerprint, and `now` is
-- that of the claim.
module _ {J : Type 0} (utf8 : String → List ℕ) (mac : List ℕ → String → List ℕ → String)
    (ring : KeyRing) (at printed_at : ℕ) where
  unfoldable pub claim_command :
      String → String → String → List ℕ → Recover J → ℕ → Table J → Result (Claimed J)
  claim_command principal_id operation_id raw_key payload recover now table =
      framed_bytes (framed utf8 ("storage" ∷ principal_id ∷ operation_id ∷ raw_key ∷ []))
      >>= λ storage. hex_digests mac ring at storage_domain storage >>= λ storage_keys.
          framed_bytes (framed utf8 ("request" ∷ principal_id ∷ operation_id ∷ [])) >>= λ request.
          hex_digests mac ring printed_at storage_domain (request ++ payload) >>= λ fingerprints.
          claim (request_of principal_id operation_id raw_key none storage_keys fingerprints)
            recover now table

  unfoldable pub claim_change_password :
      String → String → String → String → ℕ → Table J → Result (Claimed J)
  claim_change_password principal_id raw_key current_password new_password now table =
      let operation_id : String = "change_current_user_password" in
      framed_bytes (framed utf8 (principal_id ∷ operation_id ∷ raw_key ∷ [])) >>= λ storage.
      hex_digests mac ring at storage_domain storage >>= λ storage_keys.
      framed_bytes (framed utf8 (current_password ∷ new_password ∷ [])) >>= λ passwords.
      hex_digests mac ring printed_at "change-password-fingerprint" passwords >>= λ fingerprints.
      claim (request_of principal_id operation_id raw_key (some 204) storage_keys fingerprints) none
        now table

-- What digests under a ring are: the first of its one entry with the active id, the accepted ones of
-- its other entries in their overlap.
pub record Digested (mac : List ℕ → String → List ℕ → String) (ring : KeyRing) (at : ℕ)
    (value : List ℕ) (d : Digests) : Type 0 where
  pub answer : hex_digests mac ring at storage_domain value ≡ ok d
  pub key : MasterKey
  pub sole : select (is_active_key ring.active_key_id) ring.keys ≡ key ∷ []
  pub active : d.active ≡ mac key.material storage_domain value
  pub accepted :
      d.accepted
      ≡ map
          (λ (k : MasterKey). mac k.material storage_domain value)
          (select (is_previous ring.active_key_id at) ring.keys)

HasActive-Digested :
    (mac : List ℕ → String → List ℕ → String) (ring : KeyRing) (at : ℕ) (value : List ℕ)
    → HasActive mac ring storage_domain value at
    → (d : Digests) × Digested mac ring at value d
unfolding hex_digests
HasActive-Digested mac ring at value h = (
  record {
    active = mac h.active.material storage_domain value;
    accepted =
        map (λ (k : MasterKey). mac k.material storage_domain value)
          (select (is_previous ring.active_key_id at) ring.keys);
  },
  record {
    answer = rw h.answer refl;
    key = h.active;
    sole = h.sole;
    active = refl;
    accepted = refl;
  },
)

module _ (mac : List ℕ → String → List ℕ → String) (ring_version active_key_id : String)
    (loaded_at at printed_at : ℕ) (keys : List MasterKey) (ring : KeyRing)
    (is_loaded : load ring_version active_key_id loaded_at keys ≡ ok ring) (le : loaded_at ≤ at)
    (le_printed : loaded_at ≤ printed_at) where
  always-Digested :
      (later : ℕ) (value : List ℕ)
      → loaded_at ≤ later
      → (d : Digests) × Digested mac ring later value d
  always-Digested later value after = HasActive-Digested mac ring later value (
      subst (Ensures (λ ring. HasActive mac ring storage_domain value later)) is_loaded (
        load-HasActive mac storage_domain value ring_version active_key_id loaded_at later keys refl
          after))

  -- With a ring that was loaded before, a command whose texts can be framed is claimed: the claim is
  -- that of `_claim` for digests of the framed principal, operation and raw key for the storage key,
  -- and of the framed principal and operation with the payload after them for the fingerprint. The
  -- first of each is under the ring's one entry with the active id, at the time it is taken, and the
  -- accepted ones under exactly the ring's other entries that are activated and retired by then and
  -- still accepted. No digest is missing.
  pub claim_command-claims :
      {J : Type 0} (utf8 : String → List ℕ) (principal_id operation_id raw_key : String)
      (payload storage request : List ℕ) (recover : Recover J) (now : ℕ) (table : Table J)
      → framed utf8 ("storage" ∷ principal_id ∷ operation_id ∷ raw_key ∷ []) ≡ some storage
      → framed utf8 ("request" ∷ principal_id ∷ operation_id ∷ []) ≡ some request
      → (k : Digests) × ((f : Digests) × (Digested mac ring at storage k
            × (Digested mac ring printed_at (request ++ payload) f
                × (claim_command utf8 mac ring at printed_at principal_id operation_id raw_key
                      payload recover now table
                    ≡ claim
                        (request_of principal_id operation_id raw_key none k f)
                        recover
                        now
                        table))))
  unfolding claim_command
  claim_command-claims utf8 principal_id operation_id raw_key payload storage request recover now
        table es er =
      let (k, dk) = always-Digested at storage le in
      let (f, df) = always-Digested printed_at (request ++ payload) le_printed in
      (k, (f, (dk, (df, rw (es, dk.answer, er, df.answer) refl))))
