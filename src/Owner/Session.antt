-- ===== src/Owner/Session.antt =====
-- The SQLAlchemy session of the owner services: the tables it has written, newest row first, and
-- the rows that `add` left pending. The session factory disables autoflush, so a query sees the
-- written rows only.
use ai_auto_test_platform.Prelude.{
  ℕ, ◌+◌, max, String, Bool, List, [], ◌∷◌, ◌++◌, str_eq, if◌then◌else◌, select,
}
use ai_auto_test_platform.Runtime.{Runtime}
use ai_auto_test_platform.Owner.Rows.{OwnerAudit, OutboxEvent}

pub record Session : Type 0 where
  pub audits : List OwnerAudit
  pub outbox : List OutboxEvent
  pub pending_audits : List OwnerAudit
  pub pending_outbox : List OutboxEvent
  pub drawn : ℕ

-- `db.add`
abbrev pub add_audit : OwnerAudit → Session → Session
add_audit row db = record db { pending_audits = row ∷ db.pending_audits }

abbrev pub add_event : OutboxEvent → Session → Session
add_event row db = record db { pending_outbox = row ∷ db.pending_outbox }

-- `db.flush()`
unfoldable pub flush : Session → Session
flush db = record db {
  audits = db.pending_audits ++ db.audits;
  outbox = db.pending_outbox ++ db.outbox;
  pending_audits = [];
  pending_outbox = [];
}

-- `new_ulid()`: the text and the session with one more value drawn.
abbrev pub new_ulid : ⦃rt : Runtime⦄ → Session → String × Session
new_ulid ⦃rt⦄ db = (rt.ulid db.drawn, record db { drawn = db.drawn + 1 })

abbrev pub is_of : String → OutboxEvent → Bool
is_of id e = str_eq e.aggregate_id id

-- `select(func.max(OutboxEvent.sequence)).where(aggregate_id == id)`, with `or 0` for no row.
unfoldable pub max_sequence : String → List OutboxEvent → ℕ
max_sequence id [] = 0
max_sequence id (e ∷ es) =
    let rest = max_sequence id es in if is_of id e then max e.sequence rest else rest

-- The events of one aggregate, written or pending, newest first.
abbrev pub history : String → Session → List OutboxEvent
history id db = select (is_of id) (db.pending_outbox ++ db.outbox)
