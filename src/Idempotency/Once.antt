-- ===== src/Idempotency/Once.antt =====
-- What a claim returns when the command of its key was claimed before, by the same coordinator on
-- the table that the earlier claim left.
use ai_auto_test_platform.Prelude.{
  ℕ, ◌+◌, ◌≤◌, ◌<◌, ◌≡◌, refl, ap, subst, ◌∙◌, String, Option, none, some, List, [], ◌∷◌, All,
  All-mono, true, false, false≢true, ltb, eq_refl, arith, ok, err, Ensures,
}
use ai_auto_test_platform.Idempotency.{
  IdempotencyRecord, Request, Digests, Table, Recover, member, candidate_keys, all_digests, one_day,
  conflict, incomplete, set_row, validate, complete, wrong_end, replayed, recover_or_refuse, replay,
  claim_live, claim_locked, look, act, claim,
}
use ai_auto_test_platform.Idempotency.Search.{quiet, next_live-found, member-look, active-member}
use ai_auto_test_platform.Idempotency.Replay.{Opened, Fresh, claim-Fresh}

module _ {J : Type 0} where
  pub opened :
      (q : Request) (recover : Recover J) (now : ℕ) (table t : Table J) (r : IdempotencyRecord J)
      → claim q recover now table ≡ ok (r, (false, t))
      → Opened q now r t
  opened q recover now table t r e =
      subst (Ensures (Fresh q now)) e (claim-Fresh q recover now table) refl

  act-nonempty :
      (q : Request) (recover : Recover J) (now : ℕ) (keys : List String) (table : Table J)
      → member q.storage_keys.active keys ≡ true
      → act q recover now keys table ≡ claim_locked q recover now keys table
  unfolding act
  act-nonempty q recover now [] table m = absurd (false≢true m)
  act-nonempty q recover now (k ∷ keys) table m = refl

  -- A claim that finds a live row under the active key, and no other live candidate.
  found-claim :
      (q : Request) (recover : Recover J) (later : ℕ) (table : Table J) (r : IdempotencyRecord J)
      → table q.storage_keys.active ≡ some r
      → ltb later r.expires_at ≡ true
      → All (λ k. quiet q.storage_keys.active later table k ≡ true) (candidate_keys q)
      → claim q recover later table ≡ replay q recover r table
  unfolding claim claim_locked claim_live
  found-claim q recover later table r e l h =
      let seen =
        member-look table q.storage_keys.active (candidate_keys q) (rw e refl) (active-member q) in
      act-nonempty q recover later (look (candidate_keys q) table) table seen
      ∙ rw
          (next_live-found table q.storage_keys.active (candidate_keys q)
            (look (candidate_keys q) table) later r e (rw e l) seen (active-member q) h)
          refl

  later-quiet :
      (active : String) (now later : ℕ) (table : Table J) (keys : List String)
      → now ≤ later
      → All (λ k. quiet active now table k ≡ true) keys
      → All (λ k. quiet active later table k ≡ true) keys
  later-quiet active now later table keys le = All-mono _ _ keys (λ k h. ground arith)

  -- The table after `complete` of the row that a claim returned.
  abbrev pub completed : Request → IdempotencyRecord J → ℕ → Option J → ℕ → Table J → Table J
  completed q r status response_json done t =
      set_row q.storage_keys.active (complete r status response_json done) t

  complete-validate :
      (q : Request) (r : IdempotencyRecord J) (status : ℕ) (response_json : Option J) (done : ℕ)
      → validate (complete r status response_json done) q ≡ validate r q
  unfolding validate
  complete-validate q r status response_json done = refl

  pub complete-replay :
      (q : Request) (recover : Recover J) (r : IdempotencyRecord J) (status : ℕ)
      (response_json : Option J) (done : ℕ) (table : Table J)
      → validate r q ≡ ok tt
      → wrong_end q.terminal_status (some status) ≡ false
      → let r' = complete r status response_json done in
        replay q recover r' table ≡ ok (r', (true, table))
  unfolding replay replayed
  complete-replay q recover r status response_json done table valid right =
      rw (complete-validate q r status response_json done, valid, right) refl

  refused-replay :
      (q : Request) (recover : Recover J) (r : IdempotencyRecord J) (table : Table J)
      → member r.request_hash (all_digests q.fingerprints) ≡ false
      → replay q recover r table ≡ err conflict
  unfolding replay validate
  refused-replay q recover r table m = ground (arith)

  module _ (q : Request) (recover recover' : Recover J) (now later done status : ℕ)
      (response_json : Option J) (table t : Table J) (r : IdempotencyRecord J) where
    completed-claim :
        (fingerprints : Digests)
        → claim q recover now table ≡ ok (r, (false, t))
        → now ≤ later
        → later < done + one_day
        → let q' = record q { fingerprints = fingerprints } in
          let t' = completed q r status response_json done t in
          claim q' recover' later t' ≡ replay q' recover' (complete r status response_json done) t'
    completed-claim fingerprints e le lt =
        let o = opened q recover now table t r e in
        found-claim (record q { fingerprints = fingerprints }) recover' later
          (completed q r status response_json done t) (complete r status response_json done)
          (rw (eq_refl q.storage_keys.active) refl) (ground arith)
          (later-quiet q.storage_keys.active now later _ (candidate_keys q) le
            (All-mono _ _ (candidate_keys q) (λ k h. ground arith) o.others))

    -- If a claim at `now` answered that its command is to run, and the row that it returned was
    -- completed at `done`, then any claim of the same request not before `now` and less than a day
    -- after `done` returns the completed row, answers that it is a replay and leaves the table
    -- unchanged, if the status is the one that the operation demands, where it demands one.
    pub claim_replays :
        claim q recover now table ≡ ok (r, (false, t))
        → now ≤ later
        → later < done + one_day
        → wrong_end q.terminal_status (some status) ≡ false
        → claim q recover' later (completed q r status response_json done t)
          ≡ ok (
            complete r status response_json done,
            (true, completed q r status response_json done t),
          )
    claim_replays e le lt right =
        let o = opened q recover now table t r e in
        completed-claim q.fingerprints e le lt
        ∙ complete-replay q recover' r status response_json done _ o.valid right

    -- If a claim at `now` answered that its command is to run, and the row that it returned was
    -- completed at `done`, then a claim of the same keys not before `now` and less than a day after
    -- `done` is refused as a conflict, if the row's fingerprint is none of its own.
    pub claim_refuses :
        (others : Digests)
        → claim q recover now table ≡ ok (r, (false, t))
        → now ≤ later
        → later < done + one_day
        → member q.fingerprints.active (all_digests others) ≡ false
        → claim
            (record q { fingerprints = others })
            recover'
            later
            (completed q r status response_json done t)
          ≡ err conflict
    claim_refuses others e le lt apart =
        let o = opened q recover now table t r e in
        completed-claim others e le lt
        ∙ refused-replay (record q { fingerprints = others }) recover'
            (complete r status response_json done) _
            (ap (λ h. member h (all_digests others)) o.hash ∙ apart)

  -- If a claim at `now` answered that its command is to run, then a second claim of the request, on
  -- the table that the first left, not before `now` and within a day of it, is refused as incomplete
  -- where the caller has no recovery, so that the command does not run twice at once.
  pub claim_while_open :
      (q : Request) (recover : Recover J) (now later : ℕ) (table t : Table J)
      (r : IdempotencyRecord J)
      → claim q recover now table ≡ ok (r, (false, t))
      → now ≤ later
      → later < now + one_day
      → claim q none later t ≡ err incomplete
  unfolding replay recover_or_refuse
  claim_while_open q recover now later table t r e le lt =
      let o = opened q recover now table t r e in
      found-claim q none later t r o.row (ground (arith, o.until))
        (later-quiet q.storage_keys.active now later t (candidate_keys q) le o.others)
      ∙ rw (o.valid, o.unfinished) refl
