-- ===== src/KeyRing.antt =====
-- The HMAC key ring: `AuthHmacKeyRing` of auth_hmac.py, from the parsed entries of its file on. HKDF
-- and HMAC-SHA256 are one parameter, the text of the digest under a key, a domain and a value.
pub mod Load
mod Tests
use ai_auto_test_platform.Prelude.{
  ℕ, ◌+◌, ◌-◌, ◌*◌, ◌++◌, String, Option, none, some, List, [], ◌∷◌, map, select, Bool, true, false,
  not, ◌&&◌, ◌||◌, ltb, leb, ◌==◌, str_eq, if◌then◌else◌, Result, ok, err, ◌>>=◌, ◌>>◌, require,
  Error, runtime_error, value_error,
}

-- `_MasterKey`
pub record MasterKey : Type 0 where
  pub key_id : String
  pub material : List ℕ
  pub activated_at : ℕ
  pub retired_at : Option ℕ
  pub accept_until : Option ℕ

pub record KeyRing : Type 0 where
  pub ring_version : String
  pub active_key_id : String
  pub keys : List MasterKey

abbrev pub is_set : Option ℕ → Bool
is_set none = false
is_set (some t) = true

-- `value is not None and now < value`
abbrev pub is_before : ℕ → Option ℕ → Bool
is_before now none = false
is_before now (some t) = ltb now t

-- `value is None or now < value`
abbrev pub is_open : ℕ → Option ℕ → Bool
is_open now none = true
is_open now (some t) = ltb now t

unfoldable pub accepted_at : ℕ → MasterKey → Bool
accepted_at now key =
    not (ltb now key.activated_at)
    && (not (is_before now key.retired_at) && is_open now key.accept_until)

-- timedelta(hours=24), in microseconds
abbrev pub minimum_overlap : ℕ
minimum_overlap = 24 * 3600 * 1000000

-- `retired_at < activated_at or accept_until - retired_at < minimum`; a difference below 0 is 0 here.
abbrev pub short_overlap : ℕ → Option ℕ → Option ℕ → Bool
short_overlap activated_at (some retired_at) (some accept_until) =
    ltb retired_at activated_at || ltb (accept_until - retired_at) minimum_overlap
short_overlap activated_at _ _ = false

abbrev pub is_active_key : String → MasterKey → Bool
is_active_key active_key_id key = str_eq key.key_id active_key_id

-- The retirement of one entry and its part in the ring.
unfoldable pub check_entry : String → ℕ → MasterKey → Result (Unit {0})
check_entry active_key_id now key =
    require (not (is_set key.retired_at) || is_set key.accept_until)
      (runtime_error "authentication HMAC retirement timestamps must be paired")
    >> (require (is_set key.retired_at || not (is_set key.accept_until))
          (runtime_error "authentication HMAC retirement timestamps must be paired")
        >> (require (not (short_overlap key.activated_at key.retired_at key.accept_until))
              (runtime_error "authentication HMAC rotation overlap is insufficient")
            >> (if is_active_key active_key_id key
                then require (not (is_set key.retired_at || ltb now key.activated_at))
                    (runtime_error "authentication HMAC active key is not active")
                else (require (not (not (is_set key.retired_at) && leb key.activated_at now))
                      (runtime_error "non-active HMAC key must be previous or staged")
                    >> require (not (is_before now key.retired_at)) (
                        runtime_error
                          "authentication HMAC previous key retirement is in the future")))))

abbrev pub is_seen : String → List String → Bool
is_seen id [] = false
is_seen id (x ∷ xs) = let rest = is_seen id xs in str_eq id x || rest

-- The loop over the entries: it ends with `active_matches`.
unfoldable pub check_entries : String → ℕ → List String → List MasterKey → Result ℕ
check_entries active_key_id now seen [] = ok 0
check_entries active_key_id now seen (key ∷ keys) =
    let rest = check_entries active_key_id now (key.key_id ∷ seen) keys in
    require (not (is_seen key.key_id seen))
      (runtime_error "authentication HMAC key ids must be unique")
    >> (check_entry active_key_id now key
        >> (rest >>= λ n. ok ((if is_active_key active_key_id key then 1 else 0) + n)))

unfoldable pub load : String → String → ℕ → List MasterKey → Result KeyRing
load ring_version active_key_id now keys = check_entries active_key_id now [] keys >>= λ matches.
    require (matches == 1)
      (runtime_error "authentication HMAC active key must resolve exactly once")
    >>= λ _. ok (record { ring_version = ring_version; active_key_id = active_key_id; keys = keys })

-- `sorted(keys, key=lambda key: key.key_id != active_key_id)`, which is stable
abbrev pub ordered : KeyRing → List MasterKey
ordered ring =
    select (is_active_key ring.active_key_id) ring.keys
    ++ select (λ key. not (is_active_key ring.active_key_id key)) ring.keys

abbrev pub usable : KeyRing → ℕ → MasterKey → Bool
usable ring now key =
    accepted_at now key && (is_active_key ring.active_key_id key || is_set key.retired_at)

-- `_DOMAINS`
abbrev pub is_domain : String → Bool
is_domain d =
    str_eq d "source-rate-limit"
    || (str_eq d "change-password-fingerprint" || str_eq d "idempotency-storage-key")

module _ (mac : List ℕ → String → List ℕ → String) where
  -- `_derive` and the digest
  unfoldable pub digest : String → List ℕ → MasterKey → Result String
  digest domain value key =
      if is_domain domain
      then ok (mac key.material domain value)
      else err (value_error "unsupported authentication HMAC domain")

  unfoldable pub digest_all : String → List ℕ → List MasterKey → Result (List String)
  digest_all domain value [] = ok []
  digest_all domain value (key ∷ keys) =
      let rest = digest_all domain value keys in
      digest domain value key >>= λ d. rest >>= λ ds. ok (d ∷ ds)

  unfoldable pub digests : KeyRing → String → List ℕ → ℕ → Result (List String)
  digests ring domain value now = digest_all domain value (select (usable ring now) (ordered ring))
