-- ===== src/Binding/Execution.antt =====
-- What a binding command that is carried out comes to: `command` after its claim.
use ai_auto_test_platform.Prelude.{
  ◌+◌, ◌≡◌, ◌⊎◌, refl, sym, subst, String, some, arith, inl, inr, Result, ok, Ensures, Ensures-mono,
}
use ai_auto_test_platform.Runtime.{Runtime}
use ai_auto_test_platform.Idempotency.{IdempotencyRecord}
use ai_auto_test_platform.Owner.Rows.{Dict}
use ai_auto_test_platform.Runners.Slots.{first}
use ai_auto_test_platform.Binding.Rows.{Binding, CommandRequest}
use ai_auto_test_platform.Binding.Store.{Store, Call, is_binding}
use ai_auto_test_platform.Binding.Fencing.{IsFenced}
use ai_auto_test_platform.Binding.Actions.{Action, release, Held, Effect, settled, moved, act}
use ai_auto_test_platform.Binding.Moves.{Moved, act-Moved}
use ai_auto_test_platform.Binding.Phases.{Phase, released, Shows, Next, Refined, act-Refined}
use ai_auto_test_platform.Binding.Resource.{BindingResource}
use ai_auto_test_platform.Binding.Command.{change_of, finish, execute}
use ai_auto_test_platform.Binding.Carried.{Carried, Done, execute-Carried, two_leases}
use ai_auto_test_platform.Binding.Rewrites.{IsStored, bump, write-IsStored, write-IsFenced}

-- What holds of every value of a result holds of the one that it is.
pub of_ok : {A : Type 0} (P : A → Type 0) (m : Result A) (a : A) → m ≡ ok a → Ensures P m → P a
of_ok P m a e h = subst (Ensures P) e h

module _ ⦃rt : Runtime⦄ (call : Call) (action : Action) (actor_id : String) (body : CommandRequest)
    (r : IdempotencyRecord Dict) (b : Binding) (db : Store)
    (stored : first (is_binding b.execution_binding_snapshot_id) db.bindings ≡ some b) where
  abbrev Out : Type 0
  Out = BindingResource × Store

  abbrev Carries : Store → Type 0
  Carries = Carried call action actor_id body r b db

  abbrev found_held : (db' : Store) → Carries db' → Held
  found_held db' c = record { binding = b; identity = c.identity; runner = c.runner }

  found-IsStored : (db' : Store) (c : Carries db') → IsStored (found_held db' c) db
  found-IsStored db' c = record {
    binding = stored;
    identity = c.found_identity;
    runner = c.found_runner;
  }

  effect-Moved : (db' : Store) (c : Carries db') → Moved (found_held db' c) c.effect
  effect-Moved db' c =
      of_ok (Moved (found_held db' c)) _ c.effect c.acted
        (act-Moved (found_held db' c) c.now db actor_id (some c.attempt) body action)

  finish-IsFenced :
      (db' : Store) (c : Carries db') (effect : Effect)
      → Moved (found_held db' c) effect
      → IsFenced db.generations db.leases
      → IsFenced
          (finish call (change_of action actor_id body c.now b) r b effect db).generations
          (finish call (change_of action actor_id body c.now b) r b effect db).leases
  unfolding finish Moved
  finish-IsFenced db' c settled m f = f
  finish-IsFenced db' c (moved h) m f =
      write-IsFenced call (change_of action actor_id body c.now b) (found_held db' c) h db
        (found-IsStored db' c) m (two_leases call action actor_id body r b db db' c) f

  -- A command that is carried out keeps the fencing of the leases.
  pub execute-IsFenced :
      IsFenced db.generations db.leases
      → Ensures
          (λ (out : Out). IsFenced out.1.generations out.1.leases)
          (execute call action actor_id body r b db)
  execute-IsFenced f =
      Ensures-mono (Done call action actor_id body r b db)
        (λ (out : Out). IsFenced out.1.generations out.1.leases)
        (execute call action actor_id body r b db)
        (execute-Carried call action actor_id body r b db)
        λ (res, db') c.
          subst (λ (s : Store). IsFenced s.generations s.leases) (sym c.after)
            (finish-IsFenced db' c c.effect (effect-Moved db' c) f)

-- The binding has gone one step on, with its next version, or it was released and stays.
pub record Stepped (action : Action) (p : Phase) (h : Held) (db' : Store) : Type 0 where
  pub last : Held
  pub is_stored : IsStored last db'
  pub step :
      ((last ≡ h) × ((action ≡ release) × (p ≡ released)))
      ⊎ (Next action p last × (last.binding.row_version ≡ h.binding.row_version + 1))

module _ ⦃rt : Runtime⦄ (call : Call) (action : Action) (actor_id : String) (body : CommandRequest)
    (r : IdempotencyRecord Dict) (db : Store) (p : Phase) (h : Held) (is_stored : IsStored h db)
    (s : Shows p h) where
  abbrev CarriedHere : Store → Type 0
  CarriedHere = Carried call action actor_id body r h.binding db

  pub same_held :
      (db' : Store) (c : CarriedHere db')
      → found_held call action actor_id body r h.binding db is_stored.binding db' c ≡ h
  same_held db' c =
      let i : c.identity ≡ h.identity = cc (c.found_identity, is_stored.identity) in
      let u : c.runner ≡ h.runner = cc (c.found_runner, is_stored.runner) in rw (i, u) refl

  finish-Stepped :
      (db' : Store) (c : CarriedHere db') (effect : Effect)
      → Moved h effect
      → Refined action p effect
      → Stepped action p h
          (finish call (change_of action actor_id body c.now h.binding) r h.binding effect db)
  unfolding finish change_of Moved Refined Next
  finish-Stepped db' c settled m f = record {
    last = h;
    is_stored = record {
      binding = is_stored.binding;
      identity = is_stored.identity;
      runner = is_stored.runner;
    };
    step = inl (refl, f);
  }
  finish-Stepped db' c (moved h') m f = record {
    last = bump c.now h';
    is_stored =
        let w =
          write-IsStored call (change_of action actor_id body c.now h.binding) h h' db is_stored m
            (two_leases call action actor_id body r h.binding db db' c) in
        record { binding = w.binding; identity = w.identity; runner = w.runner };
    step =
        let after = f.1.1 in
        inr (
          (
            f.0,
            (
              f.1.0,
              record { binding = after.binding; identity = after.identity; runner = after.runner },
            ),
          ),
          omega (arith, m.version),
        );
  }

  -- A command that is carried out on a binding which stands, with its two leases, in a phase of the
  -- life leaves it in the phase to which the edge of the command leads, with the binding and both
  -- leases in the status of that phase and one more in the binding's version; or the command is a
  -- release, the binding is released, and the three rows are as they were.
  pub execute-Stepped :
      Ensures
        (λ (out : BindingResource × Store). Stepped action p h out.1)
        (execute call action actor_id body r h.binding db)
  execute-Stepped =
      Ensures-mono (Done call action actor_id body r h.binding db)
        (λ (out : BindingResource × Store). Stepped action p h out.1)
        (execute call action actor_id body r h.binding db)
        (execute-Carried call action actor_id body r h.binding db)
        λ (res, db') c.
          let m : Moved h c.effect =
            subst (λ k. Moved k c.effect) (same_held db' c)
              (effect-Moved call action actor_id body r h.binding db is_stored.binding db' c) in
          let f : Refined action p c.effect =
            of_ok (Refined action p) _ c.effect
              (subst (λ k. act action db actor_id (some c.attempt) body c.now k ≡ ok c.effect)
                (same_held db' c) c.acted)
              (act-Refined body c.now p h s db actor_id (some c.attempt) action) in
          subst (Stepped action p h) (sym c.after) (finish-Stepped db' c c.effect m f)
