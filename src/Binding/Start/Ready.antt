-- ===== src/Binding/Start/Ready.antt =====
-- A created binding is ready, and its two leases are its own.
use ai_auto_test_platform.Prelude.{
  ◌+◌, ◌≡◌, refl, ap, sym, ◌∙◌, subst, String, some, List, ◌∷◌, false, str_eq, eq_refl, Ensures,
  Ensures-bind, Ensures-mono, Ensures-all,
}
use ai_auto_test_platform.Runtime.{Runtime}
use ai_auto_test_platform.Idempotency.{IdempotencyRecord}
use ai_auto_test_platform.Owner.Rows.{Dict}
use ai_auto_test_platform.Runners.Rows.{Lease}
use ai_auto_test_platform.Runners.Slots.{first}
use ai_auto_test_platform.Binding.Rows.{BindingInput}
use ai_auto_test_platform.Binding.Store.{Store, Encoding, Call, is_lease}
use ai_auto_test_platform.Binding.Actions.{Held}
use ai_auto_test_platform.Binding.Phases.{ready, Shows}
use ai_auto_test_platform.Binding.Resource.{BindingResource}
use ai_auto_test_platform.Binding.Rewrites.{IsStored}
use ai_auto_test_platform.Binding.Creation.{create_after, create_resolved, create_fresh}
use ai_auto_test_platform.Binding.Preflight.Resolve.{
  Preflight, rejected, resolved, Resolved, resolve_preflight,
}
use ai_auto_test_platform.Binding.Fit.{IsFit, Judged, resolve-Judged}
use ai_auto_test_platform.Binding.Start.{AreFenced, IsCreated, create_resolved-IsCreated}

-- A binding that stands in the phase READY of its life.
pub record IsStarted (db : Store) : Type 0 where
  pub rows : Held
  pub is_stored : IsStored rows db
  pub shows : Shows ready rows

newest : (l : Lease) (rest : List Lease) → first (is_lease l.resource_lease_id) (l ∷ rest) ≡ some l
unfolding first
newest l rest = rw (eq_refl l.resource_lease_id) refl

second_newest :
    (l m : Lease) (rest : List Lease)
    → str_eq l.resource_lease_id m.resource_lease_id ≡ false
    → first (is_lease m.resource_lease_id) (l ∷ m ∷ rest) ≡ some m
unfolding first
second_newest l m rest e = rw (e, eq_refl m.resource_lease_id) refl

module _ ⦃rt : Runtime⦄ ⦃enc : Encoding⦄ (call : Call) (body : BindingInput) (actor_id : String)
    (r : IdempotencyRecord Dict) (db : Store) where
  abbrev Out : Type 0
  Out = BindingResource × Store

  created-AreFenced :
      (x : Resolved) (db' : Store)
      → IsFit call body db x
      → AreFenced db
      → IsCreated call body actor_id r x db db'
      → AreFenced db'
  created-AreFenced x db' fit f c =
      let f' = c.fenced fit.free_identity fit.free_runner f in rw (c.generations, c.leases) f'

  after-AreFenced :
      (outcome : Preflight)
      → Judged call body db outcome
      → AreFenced db
      → Ensures (λ (out : Out). AreFenced out.1) (create_after call body actor_id r db outcome)
  unfolding create_after Judged
  after-AreFenced (rejected result) j f = tt
  after-AreFenced (resolved x) fit f =
      Ensures-mono (λ (out : Out). IsCreated call body actor_id r x db out.1)
        (λ (out : Out). AreFenced out.1) (create_resolved call body actor_id r x db)
        (create_resolved-IsCreated call body actor_id r x db)
        λ (res, db') c. created-AreFenced x db' fit f c

  -- The creation of a binding keeps the fencing of the leases: whenever it answers, the two leases
  -- that it has acquired have the highest generations of their resources, and no resource has two
  -- active leases.
  pub create-AreFenced :
      AreFenced db → Ensures (λ (out : Out). AreFenced out.1) (create_fresh call body actor_id r db)
  unfolding create_fresh
  create-AreFenced f =
      Ensures-bind (Judged call body db) (λ (out : Out). AreFenced out.1)
        (resolve_preflight call body db) _ (resolve-Judged call body db)
        λ outcome j. after-AreFenced outcome j f

  module _
      (distinct : str_eq (rt.ulid (db.session.drawn + 1)) (rt.ulid db.session.drawn) ≡ false) where
    created-IsStarted :
        (x : Resolved) (db' : Store) → IsCreated call body actor_id r x db db' → IsStarted db'
    unfolding first
    created-IsStarted x db' c =
        let leases : db'.leases ≡ c.runner ∷ c.identity ∷ db.leases =
          c.leases ∙ (c.second_lease.leases ∙ ap (◌∷◌ c.runner) c.first_lease.leases) in
        let later : c.runner.resource_lease_id ≡ rt.ulid (db.session.drawn + 1) =
          c.second_lease.id ∙ ap rt.ulid c.first_lease.drawn in
        let differ : str_eq c.runner.resource_lease_id c.identity.resource_lease_id ≡ false =
          subst (λ t. str_eq c.runner.resource_lease_id t ≡ false) (sym c.first_lease.id)
            (subst (λ t. str_eq t (rt.ulid db.session.drawn) ≡ false) (sym later) distinct) in
        record {
          rows = record { binding = c.b; identity = c.identity; runner = c.runner };
          is_stored = record {
            binding = rw (c.bindings, eq_refl c.b.execution_binding_snapshot_id) refl;
            identity =
                subst (λ t. first (is_lease t) db'.leases ≡ some c.identity) (sym c.identity_id)
                  (subst (λ ls. first (is_lease c.identity.resource_lease_id) ls ≡ some c.identity)
                    (sym leases) (second_newest c.runner c.identity db.leases differ));
            runner =
                subst (λ t. first (is_lease t) db'.leases ≡ some c.runner) (sym c.runner_id)
                  (subst (λ ls. first (is_lease c.runner.resource_lease_id) ls ≡ some c.runner)
                    (sym leases) (newest c.runner (c.identity ∷ db.leases)));
          };
          shows = record {
            binding = c.status;
            identity = c.first_lease.status;
            runner = c.second_lease.status;
          };
        }

    after-IsStarted :
        (outcome : Preflight)
        → Ensures (λ (out : Out). IsStarted out.1) (create_after call body actor_id r db outcome)
    unfolding create_after
    after-IsStarted (rejected result) = tt
    after-IsStarted (resolved x) =
        Ensures-mono (λ (out : Out). IsCreated call body actor_id r x db out.1)
          (λ (out : Out). IsStarted out.1) (create_resolved call body actor_id r x db)
          (create_resolved-IsCreated call body actor_id r x db)
          λ (res, db') c. created-IsStarted x db' c

    -- If the two leases draw different ids, the creation of a binding leaves it in the phase READY of
    -- its life, with two active leases of its own.
    pub create-IsStarted :
        Ensures (λ (out : Out). IsStarted out.1) (create_fresh call body actor_id r db)
    unfolding create_fresh
    create-IsStarted =
        Ensures-bind (λ _. Unit {0}) (λ (out : Out). IsStarted out.1)
          (resolve_preflight call body db) _
          (Ensures-all (λ _. Unit {0}) (resolve_preflight call body db) (λ _. tt))
          λ outcome _. after-IsStarted outcome
