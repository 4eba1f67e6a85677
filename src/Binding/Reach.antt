-- ===== src/Binding/Reach.antt =====
-- The stores that creations and commands of bindings reach, one transaction after the other.
use ai_auto_test_platform.Prelude.{◌≡◌, String, some, [], ok}
use ai_auto_test_platform.Runtime.{Runtime}
use ai_auto_test_platform.Idempotency.{IdempotencyRecord, Table}
use ai_auto_test_platform.Owner.Rows.{Dict}
use ai_auto_test_platform.Runners.Slots.{first}
use ai_auto_test_platform.Binding.Rows.{Binding, BindingInput, CommandRequest}
use ai_auto_test_platform.Binding.Store.{Store, Encoding, Call, is_binding}
use ai_auto_test_platform.Binding.Actions.{Action}
use ai_auto_test_platform.Binding.Resource.{BindingResource}
use ai_auto_test_platform.Binding.Command.{execute}
use ai_auto_test_platform.Binding.Execution.{of_ok, execute-IsFenced}
use ai_auto_test_platform.Binding.Creation.{create_fresh}
use ai_auto_test_platform.Binding.Start.{AreFenced}
use ai_auto_test_platform.Binding.Start.Ready.{create-AreFenced}

module _ ⦃rt : Runtime⦄ ⦃enc : Encoding⦄ where
  -- A claim writes the table of records; a creation or a command that answers writes the rest. What
  -- other services write, of tables that no lease stands in, comes in between.
  pub data Step (db : Store) : Store → Type 0 where
    claims : (records : Table Dict) → Step db (record db { records = records })
    creates :
        (call : Call) (body : BindingInput) (actor_id : String) (r : IdempotencyRecord Dict)
        (res : BindingResource) {db' : Store}
        → create_fresh call body actor_id r db ≡ ok (res, db')
        → Step db db'
    executes :
        (call : Call) (action : Action) (actor_id : String) (body : CommandRequest)
        (r : IdempotencyRecord Dict) (b : Binding) (res : BindingResource) {db' : Store}
        → first (is_binding b.execution_binding_snapshot_id) db.bindings ≡ some b
        → execute call action actor_id body r b db ≡ ok (res, db')
        → Step db db'
    others : {db' : Store} → db'.leases ≡ db.leases → db'.generations ≡ db.generations → Step db db'

  pub data Reach : Store → Type 0 where
    starts : {db : Store} → db.leases ≡ [] → Reach db
    later : {db db' : Store} → Reach db → Step db db' → Reach db'

  Step-AreFenced : (db db' : Store) → Step db db' → AreFenced db → AreFenced db'
  Step-AreFenced db db' (claims records) f = f
  Step-AreFenced db db' (creates call body actor_id r res e) f =
      of_ok (λ (out : BindingResource × Store). AreFenced out.1) _ (res, db') e
        (create-AreFenced call body actor_id r db f)
  Step-AreFenced db db' (executes call action actor_id body r b res stored e) f =
      of_ok (λ (out : BindingResource × Store). AreFenced out.1) _ (res, db') e
        (execute-IsFenced call action actor_id body r b db stored f)
  Step-AreFenced db db' (others leases generations) f = rw (leases, generations) f

  -- From a store without leases, whatever creations, commands and claims follow in any order, and
  -- whatever other services write that is no lease and no generation, the leases stay fenced: the
  -- generations of one resource rise strictly in the order of acquisition and stay within its counter,
  -- and no resource has two active leases.
  pub Reach-AreFenced : (db : Store) → Reach db → AreFenced db
  Reach-AreFenced db (starts e) = rw e (record { apart = tt; counted = tt })
  Reach-AreFenced db (later r s) = Step-AreFenced _ db s (Reach-AreFenced _ r)
