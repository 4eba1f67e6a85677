-- ===== src/Binding/Tests.antt =====
-- The theorems on bindings at a concrete binding, from its creation on.
use ai_auto_test_platform.Binding.Command.{write}
use ai_auto_test_platform.Binding.Command.{finish}
use ai_auto_test_platform.Binding.Guards.{assert_active_leases}
use ai_auto_test_platform.Binding.Actions.{act}
use ai_auto_test_platform.Binding.Guards.{assert_generations}
use ai_auto_test_platform.Binding.Guards.{assert_owner}
use ai_auto_test_platform.Binding.Store.{locked_lease}
use ai_auto_test_platform.Prelude.{◌≡◌, refl, Result, ok, err, Returns, Returns-Ensures, arith}
use ai_auto_test_platform.Binding.Store.{Store, fencing_conflict, binding_of}
use ai_auto_test_platform.Binding.Leases.{
  resource_hash, lease_available, acquire_hashed, acquire_lease, held as is_held, new_lease,
  next_generation,
}
use ai_auto_test_platform.Binding.Actions.{consume, renew, recover}
use ai_auto_test_platform.Binding.Phases.{ready, live_ready, Shows}
use ai_auto_test_platform.Binding.Resource.{BindingResource, resource, resource_with}
use ai_auto_test_platform.Binding.Command.{execute, audit, event, event_row}
use ai_auto_test_platform.Binding.Rewrites.{IsStored}
use ai_auto_test_platform.Binding.Execution.{Stepped, execute-Stepped}
use ai_auto_test_platform.Binding.Holder.{IsHolder, uses_renew, execute-IsHolder}
use ai_auto_test_platform.Binding.Refusals.{execute_stale}
use ai_auto_test_platform.Binding.Recovery.{IsFreed, recover_frees}
use ai_auto_test_platform.Binding.Fencing.{IsFenced, counter}
use ai_auto_test_platform.Binding.Creation.{
  create_fresh, bind_owners, close_creation, create_after, create_resolved, insert_binding,
  new_binding,
}
use ai_auto_test_platform.Binding.Fit.{Judged}
use ai_auto_test_platform.Binding.Fit.Total.{resolve_preflight-Judged}
use ai_auto_test_platform.Binding.Preflight.Resolve.{
  resolve_preflight, lease_checks, conclude, result_of, row_checks, check, resolved_of,
}
use ai_auto_test_platform.Binding.Start.{AreFenced}
use ai_auto_test_platform.Binding.Reach.{starts, later, creates, Reach-AreFenced}
use ai_auto_test_platform.Idempotency.Framing.{framed, frame, word}
use ai_auto_test_platform.Binding.Preflight.{
  find_rows, revision_of, strategy_of, latest, newer, resource_found,
}
use ai_auto_test_platform.Runners.Slots.{first, update_first}
use ai_auto_test_platform.Runners.Readiness.{can_continue, base_blockers, failing}
use ai_auto_test_platform.Binding.Preflight.Required.{
  add, add_policy, add_terminal, capabilities_of, dict_get, insert_by, is_subset, required, sort_by,
  to_set,
}
use ai_auto_test_platform.Owner.Attempt.{attempt_edge, prepare_created, prepare_execution_attempt}
use ai_auto_test_platform.Owner.Session.{flush, max_sequence}
use ai_auto_test_platform.Owner.Task.{prepare_from, prepare_run_task, prepare_stages, task_edge}
use ai_auto_test_platform.Owner.Transition.{
  append_transition_evidence, dict_update, evidence_event, required_project, transition,
}
use ai_auto_test_platform.Binding.Guards.{may_recover}
use ai_auto_test_platform.Binding.Samples.{
  ulid_text, runtime, encoding, call, early, claimed, before, during, held, binding, body, input,
  policy, bound_attempt,
}

held-IsStored : IsStored held during
unfolding first
held-IsStored = record { binding = refl; identity = refl; runner = refl }

held-Shows : Shows ready held
held-Shows = record { binding = refl; identity = refl; runner = refl }

during-IsFenced : IsFenced during.generations during.leases
unfolding counter first
during-IsFenced = record {
  apart = ((λ e. cc, tt), (tt, tt));
  counted = (omega arith, (omega arith, tt));
}

consumes : Returns (λ _. Unit {0}) (execute early consume "user" (body 1) claimed binding during)
unfolding execute locked_lease first assert_owner assert_generations act assert_active_leases
    binding_of finish write event audit update_first resource resource_with
consumes = tt

execute-Stepped_example :
    Returns
      (λ (out : BindingResource × Store). Stepped consume ready held out.1)
      (execute early consume "user" (body 1) claimed binding during)
execute-Stepped_example =
    Returns-Ensures (λ (out : BindingResource × Store). Stepped consume ready held out.1)
      (execute early consume "user" (body 1) claimed binding during) consumes
      (execute-Stepped early consume "user" (body 1) claimed during ready held held-IsStored
        held-Shows)

renews : Returns (λ _. Unit {0}) (execute early renew "user" (body 1) claimed binding during)
unfolding execute locked_lease first assert_owner assert_generations act assert_active_leases
    binding_of finish write event audit update_first resource resource_with
renews = tt

execute-IsHolder_example :
    Returns
      (λ _. IsHolder early renew "user" (body 1) claimed binding during)
      (execute early renew "user" (body 1) claimed binding during)
execute-IsHolder_example =
    Returns-Ensures (λ _. IsHolder early renew "user" (body 1) claimed binding during)
      (execute early renew "user" (body 1) claimed binding during) renews
      (execute-IsHolder early renew "user" (body 1) claimed binding during during-IsFenced
        uses_renew)

execute_stale_example :
    execute call renew "user" (body 7) claimed binding during ≡ err fencing_conflict
unfolding first
execute_stale_example =
    execute_stale call renew "user" (body 7) claimed binding during 5 held.identity held.runner refl
      refl refl refl

recover_frees_example :
    Returns
      (λ (out : BindingResource × Store). IsFreed out.1)
      (execute call recover "admin" (body 1) claimed binding during)
unfolding first may_recover
recover_frees_example =
    recover_frees call "admin" (body 1) claimed during held
      (record {
        now = 5;
        attempt = bound_attempt;
        policy = policy;
        is_stored = held-IsStored;
        time = refl;
        found_attempt = refl;
        owner = record { of_binding = refl; of_identity = refl; of_runner = refl };
        generations = record {
          asked_identity = refl;
          asked_runner = refl;
          bound_identity = refl;
          bound_runner = refl;
        };
        version = refl;
        evidence = refl;
        role = refl;
        late = refl;
        found_policy = refl;
      })
      ready live_ready held-Shows during-IsFenced

resolve_preflight-Judged_example :
    Returns (Judged call input before) (resolve_preflight call input before)
unfolding resource_hash framed frame
resolve_preflight-Judged_example =
    resolve_preflight-Judged call input before 5 "digest" "digest" refl refl refl

-- What a result that returns is.
value : {A : Type 0} (m : Result A) → Returns (λ _. Unit {0}) m → (a : A) × (m ≡ ok a)
value (ok a) r = (a, refl)
value (err e) r = absurd r

created : Returns (λ _. Unit {0}) (create_fresh call input "user" claimed before)
unfolding create_fresh resolve_preflight resource_hash lease_checks conclude result_of row_checks
    check resolved_of lease_available acquire_hashed acquire_lease is_held new_lease next_generation
    framed frame word find_rows revision_of strategy_of latest newer resource_found first
    update_first can_continue base_blockers failing audit event event_row bind_owners close_creation
    create_after create_resolved insert_binding new_binding add add_policy add_terminal
    capabilities_of dict_get insert_by is_subset required sort_by to_set resource resource_with
    binding_of attempt_edge prepare_created prepare_execution_attempt flush max_sequence
    prepare_from prepare_run_task prepare_stages task_edge append_transition_evidence dict_update
    evidence_event required_project transition ulid_text
created = tt

abbrev creation :
    (out : BindingResource × Store) × (create_fresh call input "user" claimed before ≡ ok out)
creation = value (create_fresh call input "user" claimed before) created

Reach-AreFenced_example : AreFenced creation.0.1
Reach-AreFenced_example =
    Reach-AreFenced creation.0.1
      (later (starts refl) (creates call input "user" claimed creation.0.0 creation.1))
