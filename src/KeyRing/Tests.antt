-- ===== src/KeyRing/Tests.antt =====
-- The theorem on key rings at a concrete ring of an active and a previous key.
use ai_auto_test_platform.Prelude.{
  ℕ, ◌≡◌, refl, String, none, some, List, [], ◌∷◌, ok, Ensures, arith,
}
use ai_auto_test_platform.KeyRing.{
  MasterKey, KeyRing, check_entry, check_entries, load, accepted_at, digest, digest_all, digests,
}
use ai_auto_test_platform.KeyRing.Load.{HasActive, load-HasActive}

abbrev active_key : MasterKey
active_key = record {
  key_id = "2";
  material = [];
  activated_at = 100;
  retired_at = none;
  accept_until = none;
}

abbrev previous_key : MasterKey
previous_key = record {
  key_id = "1";
  material = 1 ∷ [];
  activated_at = 0;
  retired_at = some 100;
  accept_until = some 200000000000;
}

abbrev keys : List MasterKey
keys = previous_key ∷ active_key ∷ []

abbrev ring : KeyRing
ring = record { ring_version = "v1"; active_key_id = "2"; keys = keys }

-- A stand-in for HKDF and HMAC in the tests.
abbrev material_name : List ℕ → String → List ℕ → String
material_name [] domain value = "active"
material_name (byte ∷ bytes) domain value = "previous"

loaded : load "v1" "2" 1000 keys ≡ ok ring
unfolding load check_entries check_entry
loaded = refl

both_digests :
    digests material_name ring "source-rate-limit" [] 2000 ≡ ok ("active" ∷ "previous" ∷ [])
unfolding digests digest_all digest accepted_at
both_digests = refl

load-HasActive_example :
    Ensures
      (λ ring. HasActive material_name ring "source-rate-limit" [] 2000)
      (load "v1" "2" 1000 keys)
load-HasActive_example =
    load-HasActive material_name "source-rate-limit" [] "v1" "2" 1000 2000 keys refl (omega arith)
