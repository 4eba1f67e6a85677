-- ===== src/Owner/Trail.antt =====
-- What the outbox says of one aggregate: the events of its lifecycle edges, in order.
use ai_auto_test_platform.Prelude.{
  ℕ, ◌+◌, max, ◌≡◌, refl, ap, String, some, List, [], ◌∷◌, ◌++◌, select, select-kept,
  select-skipped, ◌≢◌, eq_iff, eq_refl, arith,
}
use ai_auto_test_platform.Runtime.{Runtime}
use ai_auto_test_platform.Owner.Rows.{
  Status, AggregateType, run_task, execution_attempt, created, snapshotted, validating,
  waiting_resource, dispatching, preparing, running, canceling, passed, failed, canceled, completed,
  OutboxEvent, Payload, edge, Lifecycle, Dict,
}
use ai_auto_test_platform.Owner.Session.{Session, is_of, max_sequence, history, flush}
use ai_auto_test_platform.Owner.Transition.{Command, Stage, transition, evidence_event}

-- The diagrams LC-035 and LC-036.
pub data Edge : AggregateType → Status → Status → Type 0 where
  snapshot : Edge run_task created snapshotted
  validate : Edge run_task snapshotted validating
  wait : Edge run_task validating waiting_resource
  dispatch : Edge run_task waiting_resource dispatching
  prepare : Edge run_task dispatching preparing
  run : Edge run_task preparing running
  cancel : Edge run_task running canceling
  complete_canceling : Edge run_task canceling completed
  complete : Edge run_task running completed
  prepare_attempt : Edge execution_attempt created preparing
  run_attempt : Edge execution_attempt preparing running
  pass_attempt : Edge execution_attempt running passed
  fail_attempt : Edge execution_attempt running failed
  cancel_attempt : Edge execution_attempt running canceled
  complete_passed : Edge execution_attempt passed completed
  complete_failed : Edge execution_attempt failed completed
  complete_canceled : Edge execution_attempt canceled completed

-- The greatest sequence of a list of events.
abbrev pub top : List OutboxEvent → ℕ
top [] = 0
top (e ∷ es) = max e.sequence (top es)

-- `e` reports the edge from `s` at version `v` to `t` at the next version, under the next sequence.
abbrev Reported : Payload → Status → Status → ℕ → ℕ → Type 0
Reported (edge p) s t v w =
    (p.from_state ≡ some s) × (p.to_state ≡ t) × (p.expected_version ≡ v) × (p.new_version ≡ w)
Reported _ s t v w = ⊥

pub record Reports (e : OutboxEvent) (s t : Status) (v w : ℕ) (older : List OutboxEvent)
    : Type 0 where
  pub payload : Reported e.payload_json.payload s t v w
  pub next_version : w ≡ v + 1
  pub next_sequence : e.sequence ≡ top older + 1
  pub same_sequence : e.payload_json.sequence ≡ e.sequence

-- From status `s₀` and version `v₀` with the events `base` to `s` and `v`: legal edges only, each
-- with one event, newest first.
pub data Trail (type : AggregateType) (s₀ : Status) (v₀ : ℕ) (base : List OutboxEvent)
    : Status → ℕ → List OutboxEvent → Type 0 where
  start : Trail type s₀ v₀ base s₀ v₀ base
  step :
      {s t : Status} {v w : ℕ} {h : List OutboxEvent} (e : OutboxEvent)
      → Trail type s₀ v₀ base s v h
      → Edge type s t
      → Reports e s t v w h
      → Trail type s₀ v₀ base t w (e ∷ h)

pub max_sequence-top :
    (id : String) (es : List OutboxEvent) → max_sequence id es ≡ top (select (is_of id) es)
unfolding max_sequence
max_sequence-top id [] = refl
max_sequence-top id (e ∷ es) = ground (arith, max_sequence-top id es)

module _ ⦃rt : Runtime⦄ (c : Command) (type : AggregateType) (id project : String) (st : Stage)
    (summary : Dict) (row : Lifecycle) (db : Session) where
  abbrev next_event : OutboxEvent
  next_event =
      evidence_event c type id project st (some row.lifecycle_status) row.row_version
        (row.row_version + 1) summary (rt.ulid (db.drawn + 1))
        (max_sequence id (db.pending_outbox ++ db.outbox) + 1)

  pub history-transition :
      history id (transition c type id project st summary row db).1 ≡ next_event ∷ history id db
  unfolding transition flush evidence_event
  history-transition = select-kept (is_of id) next_event _ (eq_refl id)

  -- One `_transition` along an edge of the diagram is one more step of the trail.
  pub transition-Trail :
      {s₀ : Status} {v₀ : ℕ} {base : List OutboxEvent}
      → Edge type row.lifecycle_status st.target
      → Trail type s₀ v₀ base row.lifecycle_status row.row_version (history id db)
      → let (row', db') = transition c type id project st summary row db in
        Trail type s₀ v₀ base row'.lifecycle_status row'.row_version (history id db')
  unfolding transition evidence_event
  transition-Trail legal trail = rw history-transition (
      step _ trail legal (record {
        payload = (refl, refl, refl, refl);
        next_version = refl;
        next_sequence = ap (λ n. n + 1) (max_sequence-top id (db.pending_outbox ++ db.outbox));
        same_sequence = refl;
      }))

  -- The evidence of one aggregate leaves the events of every other one as they were.
  pub history-transition_ne :
      (j : String)
      → id ≢ j
      → history j (transition c type id project st summary row db).1 ≡ history j db
  unfolding transition flush evidence_event
  history-transition_ne j h = select-skipped (is_of j) next_event _ (ground (arith, eq_iff id j))
