-- ===== src/Idempotency/Tests.antt =====
-- The theorems on idempotent commands at a concrete command on an empty table.
use ai_auto_test_platform.KeyRing.{MasterKey, KeyRing, load, check_entries, check_entry}
use ai_auto_test_platform.Idempotency.Commands.{
  Digested, request_of, claim_command, claim_command-claims,
}
use ai_auto_test_platform.Prelude.{
  Ensures, ◌++◌, ℕ, ◌≡◌, refl, String, none, some, List, [], ◌∷◌, map, true, false, ok, err, arith,
}
use ai_auto_test_platform.Idempotency.Race.{race-one_winner}
use ai_auto_test_platform.Idempotency.{
  candidate_keys, IdempotencyRecord, Digests, Request, Table, claim, act, look, insert_ignore,
  new_record, set_row, complete, conflict, incomplete,
}
use ai_auto_test_platform.Idempotency.Replay.{Fresh, claim-Fresh}
use ai_auto_test_platform.Idempotency.Once.{
  completed, claim_replays, claim_refuses, claim_while_open,
}
use ai_auto_test_platform.Idempotency.Framing.{framed, frame, word, framed-prefix}

abbrev request : Request
request = record {
  principal_id = "user";
  operation_id = "create_project";
  raw_key = "raw";
  storage_keys = record { active = "key"; accepted = "old" ∷ [] };
  fingerprints = record { active = "print"; accepted = [] };
  terminal_status = some 201;
}

abbrev other_prints : Digests
other_prints = record { active = "another"; accepted = [] }

abbrev no_rows : Table String
no_rows = λ k. none

abbrev row : IdempotencyRecord String
row = new_record request 10

abbrev one_row : Table String
one_row = set_row "key" row no_rows

first_claim : claim request none 10 no_rows ≡ ok (row, (false, one_row))
unfolding claim act look insert_ignore
first_claim = refl

claim-Fresh_example : Ensures (Fresh request 10) (claim request none 10 no_rows)
claim-Fresh_example = claim-Fresh request none 10 no_rows

claim_replays_example :
    claim request none 30 (completed request row 201 (some "{}") 20 one_row)
    ≡ ok (complete row 201 (some "{}") 20, (true, completed request row 201 (some "{}") 20 one_row))
claim_replays_example =
    claim_replays request none none 10 30 20 201 (some "{}") no_rows one_row row first_claim
      (omega arith) (omega arith) refl

claim_refuses_example :
    claim
      (record request { fingerprints = other_prints })
      none
      30
      (completed request row 201 (some "{}") 20 one_row)
    ≡ err conflict
claim_refuses_example =
    claim_refuses request none none 10 30 20 201 (some "{}") no_rows one_row row other_prints
      first_claim (omega arith) (omega arith) refl

claim_while_open_example : claim request none 30 one_row ≡ err incomplete
claim_while_open_example =
    claim_while_open request none 10 30 no_rows one_row row first_claim (omega arith) (omega arith)

nothing_seen : look (candidate_keys request) no_rows ≡ []
unfolding look
nothing_seen = refl

race-one_winner_example :
    (act request none 30
        (look (candidate_keys request) no_rows)
        (completed request row 201 (some "{}") 20 one_row)
      ≡ ok (
        complete row 201 (some "{}") 20,
        (true, completed request row 201 (some "{}") 20 one_row),
      ))
    × (act request none 30 (look (candidate_keys request) no_rows) one_row ≡ err incomplete)
race-one_winner_example =
    race-one_winner request none none 10 30 20 201 (some "{}") no_rows one_row row nothing_seen
      first_claim (omega arith) (omega arith) refl

-- An encoding for the tests only.
abbrev one_byte : String → List ℕ
one_byte s = 97 ∷ []

abbrev bytes : List ℕ
bytes = 0 ∷ 0 ∷ 0 ∷ 1 ∷ 97 ∷ []

abbrev suffix : List ℕ
suffix = 7 ∷ []

framed-bytes : framed one_byte ("a" ∷ []) ≡ some bytes
unfolding framed frame word
framed-bytes = refl

framed-prefix_example : (map one_byte ("a" ∷ []) ≡ map one_byte ("a" ∷ [])) × (suffix ≡ suffix)
framed-prefix_example =
    framed-prefix one_byte ("a" ∷ []) ("a" ∷ []) bytes bytes suffix suffix refl framed-bytes
      framed-bytes refl

abbrev master_key : MasterKey
master_key = record {
  key_id = "2";
  material = [];
  activated_at = 100;
  retired_at = none;
  accept_until = none;
}

abbrev ring : KeyRing
ring = record { ring_version = "v1"; active_key_id = "2"; keys = master_key ∷ [] }

abbrev one_digest : List ℕ → String → List ℕ → String
one_digest material domain value = "digest"

abbrev storage_bytes : List ℕ
storage_bytes = bytes ++ (bytes ++ (bytes ++ bytes))

abbrev request_bytes : List ℕ
request_bytes = bytes ++ (bytes ++ bytes)

loaded : load "v1" "2" 1000 (master_key ∷ []) ≡ ok ring
unfolding load check_entries check_entry
loaded = refl

framed-storage_bytes : framed one_byte ("storage" ∷ "u" ∷ "o" ∷ "k" ∷ []) ≡ some storage_bytes
unfolding framed frame word
framed-storage_bytes = refl

framed-request_bytes : framed one_byte ("request" ∷ "u" ∷ "o" ∷ []) ≡ some request_bytes
unfolding framed frame word
framed-request_bytes = refl

claim_command-claims_example :
    (k : Digests) × ((f : Digests) × (Digested one_digest ring 2000 storage_bytes k
        × (Digested one_digest ring 2001 (request_bytes ++ suffix) f
            × (claim_command one_byte one_digest ring 2000 2001 "u" "o" "k" suffix none 2000 no_rows
                ≡ claim (request_of "u" "o" "k" none k f) none 2000 no_rows))))
claim_command-claims_example =
    claim_command-claims one_digest "v1" "2" 1000 2000 2001 (master_key ∷ []) ring loaded
      (omega arith) (omega arith) one_byte "u" "o" "k" suffix storage_bytes request_bytes none 2000
      no_rows framed-storage_bytes framed-request_bytes
