-- ===== src/Idempotency/Replay.antt =====
-- What a claim that answers "not replayed" leaves in the table.
use ai_auto_test_platform.Prelude.{
  ℕ, ◌+◌, ◌≡◌, refl, sym, subst, ◌∙◌, String, Option, none, some, List, [], ◌∷◌, All, All-mono,
  Ensures-mono, Bool, true, false, false≢true, ◌==◌, eq_refl, arith, ok, err, Ensures,
  Ensures-bind_eq, Ensures-if,
}
use ai_auto_test_platform.Idempotency.{
  IdempotencyRecord, Request, Table, Claimed, Recover, candidate_keys, one_day, conflict, set_row,
  validate, new_record, renewed, finished, wrong_end, replayed, recovered, recover_or_refuse,
  replay, next_live, found_or_inserted, insert_or_read, reuse, claim_live, claim_locked, look,
  insert_ignore, act, claim,
}
use ai_auto_test_platform.Idempotency.Search.{none_live, mine-look, absent-quiet, quiet, look-empty}

new_record-validate :
    (J : Type 0) (q : Request) (now : ℕ) → validate (new_record {J = J} q now) q ≡ ok tt
unfolding validate
new_record-validate J q now =
    rw (eq_refl q.principal_id, eq_refl q.operation_id, eq_refl q.fingerprints.active) refl

module _ {J : Type 0} where
  -- What a claim that was not replayed leaves.
  pub record Opened (q : Request) (now : ℕ) (r : IdempotencyRecord J) (table : Table J)
      : Type 0 where
    pub row : table q.storage_keys.active ≡ some r
    pub valid : validate r q ≡ ok tt
    pub hash : r.request_hash ≡ q.fingerprints.active
    pub until : r.expires_at ≡ now + one_day
    pub unfinished : finished r ≡ false
    pub others : All (λ k. quiet q.storage_keys.active now table k ≡ true) (candidate_keys q)

  abbrev pub Fresh : Request → ℕ → Claimed J → Type 0
  Fresh q now out = out.1.0 ≡ false → Opened q now out.0 out.1.1

  replayed-true :
      (q : Request) (r : IdempotencyRecord J) (table : Table J)
      → Ensures (λ out. out.1.0 ≡ true) (replayed q r table)
  unfolding replayed
  replayed-true q r table =
      Ensures-if _ (wrong_end q.terminal_status r.response_status) _ _ (λ _. tt) (λ _. refl)

  recovered-true :
      (r : IdempotencyRecord J) (out : Bool × IdempotencyRecord J) (table : Table J)
      → Ensures (λ out. out.1.0 ≡ true) (recovered r out table)
  unfolding recovered
  recovered-true r (done, r') table =
      Ensures-if _ done _ _ (λ _. Ensures-if _ (finished r') _ _ (λ _. refl) (λ _. tt)) (λ _. tt)

  recover_or_refuse-true :
      (recover : Recover J) (r : IdempotencyRecord J) (table : Table J)
      → Ensures (λ out. out.1.0 ≡ true) (recover_or_refuse recover r table)
  unfolding recover_or_refuse
  recover_or_refuse-true none r table = tt
  recover_or_refuse-true (some recover) r table = recovered-true r (recover r) table

  replay-true :
      (q : Request) (recover : Recover J) (r : IdempotencyRecord J) (table : Table J)
      → Ensures (λ out. out.1.0 ≡ true) (replay q recover r table)
  unfolding replay
  replay-true q recover r table = Ensures-bind_eq _ (validate r q) _ λ _ _.
      Ensures-if _ (finished r) _ _ (λ _. replayed-true q r table)
        (λ _. recover_or_refuse-true recover r table)

  renewed-validate :
      (q : Request) (now : ℕ) (r : IdempotencyRecord J)
      → (r.contract_version == 2) ≡ true
      → validate (renewed q now r) q ≡ ok tt
  unfolding validate
  renewed-validate q now r v =
      rw (v, eq_refl q.principal_id, eq_refl q.operation_id, eq_refl q.fingerprints.active) refl

  quiet-set_row :
      (active : String) (now : ℕ) (r : IdempotencyRecord J) (table : Table J) (keys : List String)
      → All (λ k. quiet active now table k ≡ true) keys
      → All (λ k. quiet active now (set_row active r table) k ≡ true) keys
  quiet-set_row active now r table keys = All-mono _ _ keys (λ k h. ground arith)

  new_record-Opened :
      (q : Request) (now : ℕ) (table : Table J)
      → All (λ k. quiet q.storage_keys.active now table k ≡ true) (candidate_keys q)
      → Opened q now (new_record q now) (set_row q.storage_keys.active (new_record q now) table)
  new_record-Opened q now table h = record {
    row = rw (eq_refl q.storage_keys.active) refl;
    valid = new_record-validate J q now;
    hash = refl;
    until = refl;
    unfinished = refl;
    others = quiet-set_row q.storage_keys.active now (new_record q now) table (candidate_keys q) h;
  }

  renewed-Opened :
      (q : Request) (now : ℕ) (r : IdempotencyRecord J) (table : Table J)
      → (r.contract_version == 2) ≡ true
      → All (λ k. quiet q.storage_keys.active now table k ≡ true) (candidate_keys q)
      → Opened q now (renewed q now r) (set_row q.storage_keys.active (renewed q now r) table)
  renewed-Opened q now r table v h = record {
    row = rw (eq_refl q.storage_keys.active) refl;
    valid = renewed-validate q now r v;
    hash = refl;
    until = refl;
    unfinished = refl;
    others = quiet-set_row q.storage_keys.active now (renewed q now r) table (candidate_keys q) h;
  }

  absent-insert_or_read :
      (q : Request) (now : ℕ) (table : Table J)
      → table q.storage_keys.active ≡ none
      → insert_or_read q now table
        ≡ ok (new_record q now, (false, set_row q.storage_keys.active (new_record q now) table))
  unfolding insert_or_read found_or_inserted
  absent-insert_or_read q now table e =
      rw (e, eq_refl q.storage_keys.active, new_record-validate J q now) refl

  old-validate :
      (q : Request) (r : IdempotencyRecord J)
      → (r.contract_version == 2) ≡ false
      → validate r q ≡ err conflict
  unfolding validate
  old-validate q r v = rw v refl

  old-insert_or_read :
      (q : Request) (now : ℕ) (r : IdempotencyRecord J) (table : Table J)
      → table q.storage_keys.active ≡ some r
      → (r.contract_version == 2) ≡ false
      → insert_or_read q now table ≡ err conflict
  unfolding insert_or_read found_or_inserted
  old-insert_or_read q now r table e v = rw (e, e, old-validate q r v) refl

  reuse-Fresh :
      (q : Request) (now : ℕ) (mine : Option (IdempotencyRecord J)) (table : Table J)
      → table q.storage_keys.active ≡ mine
      → All (λ k. quiet q.storage_keys.active now table k ≡ true) (candidate_keys q)
      → Ensures (Fresh q now) (reuse q now mine table)
  unfolding reuse
  reuse-Fresh q now none table e h =
      rw (absent-insert_or_read q now table e) λ _. new_record-Opened q now table h
  reuse-Fresh q now (some r) table e h =
      Ensures-if _ (r.contract_version == 2) _ _ (λ v _. renewed-Opened q now r table v h)
        λ v. rw (old-insert_or_read q now r table e v) tt

  claim_live-Fresh :
      (q : Request) (recover : Recover J) (now : ℕ) (found : Option (IdempotencyRecord J))
      (table : Table J)
      → (found ≡ none
          → All (λ k. quiet q.storage_keys.active now table k ≡ true) (candidate_keys q))
      → Ensures (Fresh q now) (claim_live q recover now found (table q.storage_keys.active) table)
  unfolding claim_live
  claim_live-Fresh q recover now none table h = reuse-Fresh q now _ table refl (h refl)
  claim_live-Fresh q recover now (some r) table h =
      Ensures-mono _ _ (replay q recover r table) (replay-true q recover r table)
        λ out yes no. absurd (false≢true (sym no ∙ yes))

  locked-Fresh :
      (q : Request) (recover : Recover J) (now : ℕ) (table : Table J)
      → Ensures (Fresh q now) (claim_locked q recover now (look (candidate_keys q) table) table)
  unfolding claim_locked
  locked-Fresh q recover now table = rw (mine-look q table) (
      claim_live-Fresh q recover now
        (next_live (candidate_keys q) (look (candidate_keys q) table) table now) table
        (none_live q now table))

  act-Fresh :
      (q : Request) (recover : Recover J) (now : ℕ) (table : Table J) (keys : List String)
      → look (candidate_keys q) table ≡ keys
      → Ensures (Fresh q now) (act q recover now keys table)
  unfolding act insert_ignore
  act-Fresh q recover now table [] e =
      let absent = look-empty table (candidate_keys q) e in
      rw absent.1.0 λ _. new_record-Opened q now table (
        All-mono _ (λ k. quiet q.storage_keys.active now table k ≡ true) (candidate_keys q)
          (λ k h. absent-quiet q.storage_keys.active now (table k) k h) absent)
  act-Fresh q recover now table (k ∷ keys) e =
      subst (λ locked. Ensures (Fresh q now) (claim_locked q recover now locked table)) e
        (locked-Fresh q recover now table)

  -- Whatever the claim found, if it answers that the command is not replayed, the row that it returns
  -- is stored under the active key, is valid for the request, open and good for a day, and no other
  -- candidate key has a live row.
  pub claim-Fresh :
      (q : Request) (recover : Recover J) (now : ℕ) (table : Table J)
      → Ensures (Fresh q now) (claim q recover now table)
  unfolding claim
  claim-Fresh q recover now table =
      act-Fresh q recover now table (look (candidate_keys q) table) refl
