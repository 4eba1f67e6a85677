-- ===== src/Idempotency/Race.antt =====
-- Two first requests with one key: the second read the keys before the first one's transaction
-- committed, and acts after it.
use ai_auto_test_platform.Prelude.{
  ℕ, ◌+◌, ◌<◌, ◌≡◌, refl, sym, ap, ◌∙◌, String, Option, some, none, List, [], ◌∷◌, true, false,
  false≢true, ltb, str_eq, eq_iff, eq_refl, arith, Bool-cases, inl, inr, ok, err,
}
use ai_auto_test_platform.Idempotency.{
  IdempotencyRecord, Request, Table, Recover, member, candidate_keys, one_day, incomplete, complete,
  wrong_end, recover_or_refuse, replay, next_live, claim_live, claim_locked, look, insert_ignore,
  act, claim,
}
use ai_auto_test_platform.Idempotency.Search.{active-member}
use ai_auto_test_platform.Idempotency.Once.{opened, completed, complete-replay}

module _ {J : Type 0} where
  next_live-locked :
      (active : String) (keys : List String) (table : Table J) (later : ℕ) (r : IdempotencyRecord J)
      → table active ≡ some r
      → ltb later r.expires_at ≡ true
      → member active keys ≡ true
      → next_live keys (active ∷ []) table later ≡ some r
  unfolding next_live
  next_live-locked active [] table later r e l m = absurd (false≢true m)
  next_live-locked active (k ∷ keys) table later r e l m = elim (Bool-cases (str_eq active k)) [
    | inl same ↦
        let s : active ≡ k = (eq_iff active k).0 same in rw (sym s, eq_refl active, e, l) refl
    | inr other ↦
        let apart : str_eq k active ≡ false =
          ground (arith, other, eq_iff active k, eq_iff k active) in
        let rest : next_live keys (active ∷ []) table later ≡ some r =
          next_live-locked active keys table later r e l (ground (arith, m, other)) in
        rw apart rest
  ]

  late-act :
      (q : Request) (recover : Recover J) (later : ℕ) (table : Table J) (r : IdempotencyRecord J)
      → table q.storage_keys.active ≡ some r
      → ltb later r.expires_at ≡ true
      → act q recover later [] table ≡ replay q recover r table
  unfolding act insert_ignore claim_locked claim_live
  late-act q recover later table r e l =
      rw
        (
          e,
          next_live-locked q.storage_keys.active (candidate_keys q) table later r e l
              (active-member q),
        )
        refl

  -- Of two requests of one command of which the second saw no key in the table that the first found,
  -- but acts on the table that the first left, only the first runs: if the command has been completed
  -- by then, with the status that the operation demands where it demands one, the second returns the
  -- completed row as a replay; if it has not, the second is refused as incomplete. Both less than a
  -- day after the row was last written.
  pub race-one_winner :
      (q : Request) (recover recover' : Recover J) (now later done status : ℕ)
      (response_json : Option J) (table t : Table J) (r : IdempotencyRecord J)
      → look (candidate_keys q) table ≡ []
      → claim q recover now table ≡ ok (r, (false, t))
      → later < now + one_day
      → later < done + one_day
      → wrong_end q.terminal_status (some status) ≡ false
      → let t' = completed q r status response_json done t in
        (act q recover' later (look (candidate_keys q) table) t'
          ≡ ok (complete r status response_json done, (true, t')))
        × (act q none later (look (candidate_keys q) table) t ≡ err incomplete)
  unfolding replay recover_or_refuse
  race-one_winner q recover recover' now later done status response_json table t r none_seen e lt
        lt' right =
      let o = opened q recover now table t r e in
      let t' = completed q r status response_json done t in
      let stored : t' q.storage_keys.active ≡ some (complete r status response_json done) =
        rw (eq_refl q.storage_keys.active) refl in
      (
        ap (λ keys. act q recover' later keys t') none_seen
            ∙ late-act q recover' later t' (complete r status response_json done) stored
                (ground (arith, lt'))
            ∙ complete-replay q recover' r status response_json done t' o.valid right,
        ap (λ keys. act q none later keys t) none_seen
            ∙ late-act q none later t r o.row (ground (arith, o.until, lt))
            ∙ rw (o.valid, o.unfinished) refl,
      )
