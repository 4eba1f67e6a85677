-- ===== src/Idempotency/Search.antt =====
-- The search of a claim among the candidate keys: what `look` and `next_live` find.
use ai_auto_test_platform.Prelude.{
  All-and, not, ◌||◌, Option, none, some, sym, ◌∙◌, if◌then◌else◌, false≢true, ℕ, ◌≡◌, refl, subst,
  String, List, [], ◌∷◌, All, All-mono, Bool, true, false, ◌&&◌, str_eq, eq_iff, eq_refl, arith,
  Bool-cases, inl, inr,
}
use ai_auto_test_platform.Idempotency.{
  IdempotencyRecord, Request, Table, member, candidate_keys, present, live, next_live, look,
}

pub members : (keys : List String) → All (λ k. member k keys ≡ true) keys
members [] = tt
members (k ∷ keys) = (
  rw (eq_refl k) refl,
  All-mono (λ x. member x keys ≡ true) (λ x. member x (k ∷ keys) ≡ true) keys (λ x m. ground arith)
      (members keys),
)

pub active-member : (q : Request) → member q.storage_keys.active (candidate_keys q) ≡ true
active-member q = ground (arith, eq_refl q.storage_keys.active)

module _ {J : Type 0} where
  -- No key but `active` has a live row.
  abbrev pub quiet : String → ℕ → Table J → String → Bool
  quiet active now table k = str_eq active k || not (live now (table k))

  module _ (table : Table J) where
    pub member-look :
        (k : String) (keys : List String)
        → present (table k) ≡ true
        → member k keys ≡ true
        → member k (look keys table) ≡ true
    unfolding look
    member-look k [] p m = m
    member-look k (x ∷ keys) p m = elim (Bool-cases (str_eq k x)) [
      | inl same ↦
          let e : k ≡ x = (eq_iff k x).0 same in
          let px : present (table x) ≡ true = subst (λ t. present (table t) ≡ true) e p in
          ground (arith, same, px)
      | inr other ↦ ground (arith, member-look k keys p, other)
    ]

    pub look-empty :
        (keys : List String) → look keys table ≡ [] → All (λ k. present (table k) ≡ false) keys
    unfolding look
    look-empty [] e = tt
    look-empty (k ∷ keys) e = ground (arith, look-empty keys)

    pub next_live-none :
        (keys locked : List String) (now : ℕ)
        → next_live keys locked table now ≡ none
        → All (λ k. (member k locked && live now (table k)) ≡ false) keys
    unfolding next_live
    next_live-none [] locked now e = tt
    next_live-none (k ∷ keys) locked now e = ground (arith, next_live-none keys locked now)

    -- The one live row among the candidates is found.
    pub next_live-found :
        (active : String) (keys locked : List String) (now : ℕ) (r : IdempotencyRecord J)
        → table active ≡ some r
        → live now (table active) ≡ true
        → member active locked ≡ true
        → member active keys ≡ true
        → All (λ k. quiet active now table k ≡ true) keys
        → next_live keys locked table now ≡ some r
    unfolding next_live
    next_live-found active [] locked now r e l m h q = absurd (false≢true h)
    next_live-found active (k ∷ keys) locked now r e l m h q = elim (Bool-cases (str_eq active k)) [
      | inl same ↦ let s : active ≡ k = (eq_iff active k).0 same in rw (sym s, m, l) e
      | inr other ↦
          let rest : next_live keys locked table now ≡ some r =
            next_live-found active keys locked now r e l m (ground arith) q.1 in
          let dead : live now (table k) ≡ false = ground arith in ground (arith, rest, dead)
    ]

  live-present : (now : ℕ) (o : Option (IdempotencyRecord J)) → live now o ≡ true → present o ≡ true
  live-present now none h = absurd (false≢true h)
  live-present now (some r) h = refl

  dead :
      (q : Request) (now : ℕ) (table : Table J) (k : String)
      → (member k (look (candidate_keys q) table) && live now (table k)) ≡ false
      → member k (candidate_keys q) ≡ true
      → quiet q.storage_keys.active now table k ≡ true
  dead q now table k h m = elim (Bool-cases (live now (table k))) [
    | inl l ↦
        let seen = member-look table k (candidate_keys q) (live-present now (table k) l) m in
        absurd (false≢true (sym h ∙ rw (seen, l) refl))
    | inr l ↦ ground (arith, l)
  ]

  -- If no candidate's row is live, no candidate is.
  pub none_live :
      (q : Request) (now : ℕ) (table : Table J)
      → next_live (candidate_keys q) (look (candidate_keys q) table) table now ≡ none
      → All (λ k. quiet q.storage_keys.active now table k ≡ true) (candidate_keys q)
  none_live q now table e =
      let keys = candidate_keys q in
      All-mono
        (λ k. ((member k (look keys table) && live now (table k)) ≡ false) × (member k keys ≡ true))
        (λ k. quiet q.storage_keys.active now table k ≡ true) keys
        (λ k h. dead q now table k h.0 h.1)
        (All-and _ _ keys (next_live-none table keys (look keys table) now e) (members keys))

  mine-cases :
      (b : Bool) (o : Option (IdempotencyRecord J))
      → (present o ≡ true → b ≡ true)
      → (if b then o else none) ≡ o
  mine-cases true o h = refl
  mine-cases false none h = refl
  mine-cases false (some r) h = absurd (false≢true (h refl))

  pub mine-look :
      (q : Request) (table : Table J)
      → (if member q.storage_keys.active (look (candidate_keys q) table)
          then table q.storage_keys.active
          else none)
        ≡ table q.storage_keys.active
  mine-look q table =
      mine-cases (member q.storage_keys.active (look (candidate_keys q) table))
        (table q.storage_keys.active)
        (λ p. member-look table q.storage_keys.active (candidate_keys q) p (active-member q))

  pub absent-quiet :
      (active : String) (now : ℕ) (o : Option (IdempotencyRecord J)) (k : String)
      → present o ≡ false
      → (str_eq active k || not (live now o)) ≡ true
  absent-quiet active now o k h = ground arith
