-- ===== src/KeyRing/Load.antt =====
-- The digests of a ring that was loaded.
use ai_auto_test_platform.Prelude.{
  ℕ, ◌+◌, ◌≤◌, ◌≡◌, refl, ap, sym, subst, ◌∙◌, ◌++◌, String, Option, none, some, List, [], ◌∷◌, map,
  select, All, Bool, true, false, false≢true, not, ◌&&◌, ◌||◌, ltb, leb, ◌==◌, ==_iff, arith,
  if◌then◌else◌, ok, ◌>>=◌, require, Ensures, Ensures-bind_eq, Ensures-mono, Ensures-all,
  Ensures-bind, select-passes, select-kept, select-skipped, runtime_error, length, Bool-cases, inl,
  inr,
}
use ai_auto_test_platform.KeyRing.{
  MasterKey, KeyRing, accepted_at, is_active_key, is_set, is_before, is_open, check_entry, is_seen,
  check_entries, load, ordered, usable, is_domain, digest, digest_all, digests,
}

-- Accepted from `now` on.
abbrev pub Current : ℕ → MasterKey → Type 0
Current now key = (key.activated_at ≤ now) × ((key.retired_at ≡ none) × (key.accept_until ≡ none))

check_entry-Current :
    (active_key_id : String) (now : ℕ) (key : MasterKey)
    → is_active_key active_key_id key ≡ true
    → Ensures (λ _. Current now key) (check_entry active_key_id now key)
unfolding check_entry
check_entry-Current active_key_id now key own = ground (arith)

-- The entries whose id is the active one: as many as were counted, each current.
pub record Checked (active_key_id : String) (now : ℕ) (keys : List MasterKey) (n : ℕ) : Type 0 where
  pub number : length (select (is_active_key active_key_id) keys) ≡ n
  pub current : All (Current now) (select (is_active_key active_key_id) keys)

count_one :
    (active_key_id : String) (now : ℕ) (key : MasterKey) (keys : List MasterKey) (n : ℕ)
    → (is_active_key active_key_id key ≡ true → Current now key)
    → Checked active_key_id now keys n
    → Checked active_key_id now
        (key ∷ keys)
        ((if is_active_key active_key_id key then 1 else 0) + n)
count_one active_key_id now key keys n own rest =
    elim (Bool-cases (is_active_key active_key_id key)) [
      | inl yours ↦
          let kept = select-kept (is_active_key active_key_id) key keys yours in
          record {
            number = ap length kept ∙ rw yours (omega (arith, rest.number));
            current = subst (All (Current now)) (sym kept) (own yours, rest.current);
          }
      | inr not_yours ↦
          let skipped = select-skipped (is_active_key active_key_id) key keys not_yours in
          record {
            number = ap length skipped ∙ rw not_yours (omega (arith, rest.number));
            current = subst (All (Current now)) (sym skipped) rest.current;
          }
    ]

check_entry-own :
    (active_key_id : String) (now : ℕ) (key : MasterKey)
    → Ensures
        (λ _. is_active_key active_key_id key ≡ true → Current now key)
        (check_entry active_key_id now key)
check_entry-own active_key_id now key = elim (Bool-cases (is_active_key active_key_id key)) [
  | inl yours ↦
      Ensures-mono (λ _. Current now key) _ (check_entry active_key_id now key)
        (check_entry-Current active_key_id now key yours) (λ _ c _. c)
  | inr not_yours ↦
      Ensures-all (λ _. is_active_key active_key_id key ≡ true → Current now key)
        (check_entry active_key_id now key) (λ _ yours. absurd (false≢true (sym not_yours ∙ yours)))
]

check_entries-Checked :
    (active_key_id : String) (now : ℕ) (seen : List String) (keys : List MasterKey)
    → Ensures (Checked active_key_id now keys) (check_entries active_key_id now seen keys)
unfolding check_entries
check_entries-Checked active_key_id now seen [] = record { number = refl; current = tt }
check_entries-Checked active_key_id now seen (key ∷ keys) =
    Ensures-bind_eq (Checked active_key_id now (key ∷ keys))
      (require (not (is_seen key.key_id seen)) _) _
      λ _ _.
        Ensures-bind (λ _. is_active_key active_key_id key ≡ true → Current now key)
          (Checked active_key_id now (key ∷ keys)) (check_entry active_key_id now key) _
          (check_entry-own active_key_id now key)
          λ _ own.
            Ensures-bind (Checked active_key_id now keys) (Checked active_key_id now (key ∷ keys))
              (check_entries active_key_id now (key.key_id ∷ seen) keys) _
              (check_entries-Checked active_key_id now (key.key_id ∷ seen) keys)
              λ n rest. count_one active_key_id now key keys n own rest

Current-accepted_at :
    (now later : ℕ) (key : MasterKey) → now ≤ later → Current now key → accepted_at later key ≡ true
unfolding accepted_at
Current-accepted_at now later key le (start, (retired, open_end)) =
    rw (retired, open_end) (ground (arith, start, le))

-- A retired key whose overlap `at` lies in: activated and retired by then, and still accepted.
abbrev pub in_overlap : ℕ → MasterKey → Bool
in_overlap at key = leb key.activated_at at && between key.retired_at key.accept_until
  where
    between : Option ℕ → Option ℕ → Bool
    between none accept_until = false
    between (some retired_at) none = leb retired_at at
    between (some retired_at) (some accept_until) = leb retired_at at && ltb at accept_until

abbrev pub is_previous : String → ℕ → MasterKey → Bool
is_previous active_key_id at key = not (is_active_key active_key_id key) && in_overlap at key

overlap-test :
    (start at : ℕ) (retired_at accept_until : Option ℕ)
    → ((not (ltb at start) && (not (is_before at retired_at) && is_open at accept_until))
        && (false || is_set retired_at))
      ≡ in_overlap at (record {
        key_id = "";
        material = [];
        activated_at = start;
        retired_at = retired_at;
        accept_until = accept_until;
      })
overlap-test start at none none = ground arith
overlap-test start at none (some u) = ground arith
overlap-test start at (some r) none = ground arith
overlap-test start at (some r) (some u) = ground arith

usable-is_previous :
    (ring : KeyRing) (at : ℕ) (key : MasterKey)
    → is_active_key ring.active_key_id key ≡ false
    → usable ring at key ≡ is_previous ring.active_key_id at key
unfolding accepted_at
usable-is_previous ring at key other =
    rw other (overlap-test key.activated_at at key.retired_at key.accept_until)

-- What the digests of a loaded ring are: the ring has one entry of the active id, and of its other
-- entries those in their overlap follow, in the order of the ring.
pub record HasActive (mac : List ℕ → String → List ℕ → String) (ring : KeyRing) (domain : String)
    (value : List ℕ) (later : ℕ) : Type 0 where
  pub active : MasterKey
  pub sole : select (is_active_key ring.active_key_id) ring.keys ≡ active ∷ []
  pub answer :
      digests mac ring domain value later
      ≡ ok (
          map
            (λ (k : MasterKey). mac k.material domain value)
            (active ∷ select (is_previous ring.active_key_id later) ring.keys))

others-usable :
    (ring : KeyRing) (later : ℕ) (keys : List MasterKey)
    → select (usable ring later) (select (λ key. not (is_active_key ring.active_key_id key)) keys)
      ≡ select (is_previous ring.active_key_id later) keys
others-usable ring later [] = refl
others-usable ring later (k ∷ keys) = elim (Bool-cases (is_active_key ring.active_key_id k)) [
  | inl yours ↦ ground (arith, yours, others-usable ring later keys)
  | inr other ↦
      ground (arith, other, usable-is_previous ring later k other, others-usable ring later keys)
]

module _ (mac : List ℕ → String → List ℕ → String) (domain : String) (value : List ℕ)
    (known : is_domain domain ≡ true) where
  digest_all-map :
      (keys : List MasterKey)
      → digest_all mac domain value keys
        ≡ ok (map (λ (k : MasterKey). mac k.material domain value) keys)
  unfolding digest_all digest
  digest_all-map [] = refl
  digest_all-map (key ∷ keys) = rw (known, digest_all-map keys) refl

  digests-select :
      (ring : KeyRing) (later : ℕ)
      → digests mac ring domain value later
        ≡ digest_all mac domain value (select (usable ring later) (ordered ring))
  unfolding digests
  digests-select ring later = refl

  single :
      (ring : KeyRing) (now later : ℕ) (mine : List MasterKey)
      → select (is_active_key ring.active_key_id) ring.keys ≡ mine
      → length mine ≡ 1
      → All (Current now) mine
      → All (λ k. is_active_key ring.active_key_id k ≡ true) mine
      → now ≤ later
      → HasActive mac ring domain value later
  single ring now later [] e n c own le = absurd (omega (arith, n))
  single ring now later (a ∷ b ∷ mine) e n c own le = absurd (omega (arith, n))
  single ring now later (a ∷ []) e n c own le =
      let others = select (λ key. not (is_active_key ring.active_key_id key)) ring.keys in
      let accepts : usable ring later a ≡ true =
        rw (Current-accepted_at now later a le c.0, own.0) refl in
      let first : select (usable ring later) (ordered ring)
          ≡ a ∷ select (is_previous ring.active_key_id later) ring.keys =
        ap (λ mine. select (usable ring later) (mine ++ others)) e
        ∙ (select-kept (usable ring later) a others accepts
            ∙ ap (λ rest. a ∷ rest) (others-usable ring later ring.keys)) in
      record {
        active = a;
        sole = e;
        answer =
            digests-select ring later
            ∙ ap (digest_all mac domain value) first
            ∙ digest_all-map (a ∷ select (is_previous ring.active_key_id later) ring.keys);
      }

-- Once a ring is loaded at `now`, then at any later time, for a known domain, its digests are those
-- of the one entry of the ring with the active id, first, and after it of exactly those other entries
-- of the ring, in their order, that are activated and retired by then and still accepted: there
-- always is a digest to store under.
pub load-HasActive :
    (mac : List ℕ → String → List ℕ → String) (domain : String) (value : List ℕ)
    (ring_version active_key_id : String) (now later : ℕ) (keys : List MasterKey)
    → is_domain domain ≡ true
    → now ≤ later
    → Ensures
        (λ ring. HasActive mac ring domain value later)
        (load ring_version active_key_id now keys)
unfolding load
load-HasActive mac domain value ring_version active_key_id now later keys known le =
    Ensures-bind (Checked active_key_id now keys) (λ ring. HasActive mac ring domain value later)
      (check_entries active_key_id now [] keys) _ (check_entries-Checked active_key_id now [] keys)
      λ n checked. one_match n (n == 1) refl checked
  where
    one_match :
        (n : ℕ) (b : Bool)
        → (n == 1) ≡ b
        → Checked active_key_id now keys n
        → Ensures
            (λ ring. HasActive mac ring domain value later)
            (require b (runtime_error "authentication HMAC active key must resolve exactly once")
              >>= λ _. ok (record {
                ring_version = ring_version;
                active_key_id = active_key_id;
                keys = keys;
              }))
    one_match n false e checked = tt
    one_match n true e checked =
        let ring : KeyRing = record {
          ring_version = ring_version;
          active_key_id = active_key_id;
          keys = keys;
        } in
        single mac domain value known ring now later (select (is_active_key active_key_id) keys)
          refl (checked.number ∙ (==_iff n 1).0 e) checked.current
          (select-passes (is_active_key active_key_id) keys) le
