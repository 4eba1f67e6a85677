-- ===== src/Binding/Phases.antt =====
-- The abstract life of a binding, which its commands implement.
use ai_auto_test_platform.Prelude.{
  ℕ, ◌≡◌, refl, subst, ap, ◌∙◌, String, Option, some, true, ◌||◌, str_eq, arith, ok, ◌>>◌, Ensures,
}
use ai_auto_test_platform.Owner.Rows.{ExecutionAttempt}
use ai_auto_test_platform.Runners.Rows.{Lease}
use ai_auto_test_platform.Binding.Rows.{CommandRequest}
use ai_auto_test_platform.Binding.Store.{Store}
use ai_auto_test_platform.Binding.Leases.{
  identity_ttl, runner_ttl, ended, release_lease, expire_lease,
}
use ai_auto_test_platform.Binding.Guards.{is_live, assert_active_leases, release_active_leases}
use ai_auto_test_platform.Binding.Actions.{
  Action, consume, renew, release, recover, Held, Effect, settled, moved, consume_held, renew_held,
  release_held, recover_held, renewed, act,
}

pub data Phase : Type 0 where
  ready in_use released expired : Phase

abbrev pub phase_text : Phase → String
phase_text ready = "READY"
phase_text in_use = "IN_USE"
phase_text released = "RELEASED"
phase_text expired = "EXPIRED"

-- The status of both leases in a phase.
abbrev pub lease_text : Phase → String
lease_text ready = "ACTIVE"
lease_text in_use = "ACTIVE"
lease_text released = "RELEASED"
lease_text expired = "EXPIRED"

-- The steps of the life.
pub data Edge : Action → Phase → Phase → Type 0 where
  consumes : Edge consume ready in_use
  renews_ready : Edge renew ready ready
  renews_in_use : Edge renew in_use in_use
  releases_ready : Edge release ready released
  releases_in_use : Edge release in_use released
  expires_ready : Edge recover ready expired
  expires_in_use : Edge recover in_use expired

pub record Shows (p : Phase) (h : Held) : Type 0 where
  pub binding : h.binding.status ≡ phase_text p
  pub identity : h.identity.status ≡ lease_text p
  pub runner : h.runner.status ≡ lease_text p

unfoldable pub Next : Action → Phase → Held → Type 0
Next action p h = (q : Phase) × (Edge action p q × Shows q h)

-- A binding in phase `p` under a command: settled in the phase released, or one step on.
unfoldable pub Refined : Action → Phase → Effect → Type 0
Refined action p settled = (action ≡ release) × (p ≡ released)
Refined action p (moved h) = Next action p h

ready_text : (p : Phase) → str_eq (phase_text p) "READY" ≡ true → p ≡ ready
ready_text ready e = refl
ready_text in_use e = cc
ready_text released e = cc
ready_text expired e = cc

released_text : (p : Phase) → str_eq (phase_text p) "RELEASED" ≡ true → p ≡ released
released_text released e = refl
released_text ready e = cc
released_text in_use e = cc
released_text expired e = cc

pub data IsLive : Phase → Type 0 where
  live_ready : IsLive ready
  live_in_use : IsLive in_use

phase_text-IsLive :
    (p : Phase)
    → (str_eq (phase_text p) "READY" || str_eq (phase_text p) "IN_USE") ≡ true
    → IsLive p
phase_text-IsLive ready e = live_ready
phase_text-IsLive in_use e = live_in_use
phase_text-IsLive released e = cc
phase_text-IsLive expired e = cc

-- A test on the status of the binding is one on the phase.
module _ (p : Phase) (h : Held) (s : Shows p h) where
  ready-eq : str_eq h.binding.status "READY" ≡ true → p ≡ ready
  ready-eq e = ready_text p (subst (λ t. str_eq t "READY" ≡ true) s.binding e)

  released-eq : str_eq h.binding.status "RELEASED" ≡ true → p ≡ released
  released-eq e = released_text p (subst (λ t. str_eq t "RELEASED" ≡ true) s.binding e)

  is_live-IsLive : is_live h.binding ≡ true → IsLive p
  is_live-IsLive e =
      phase_text-IsLive p (subst (λ t. (str_eq t "READY" || str_eq t "IN_USE") ≡ true) s.binding e)

releases : {p : Phase} → IsLive p → Edge release p released
releases live_ready = releases_ready
releases live_in_use = releases_in_use

expires : {p : Phase} → IsLive p → Edge recover p expired
expires live_ready = expires_ready
expires live_in_use = expires_in_use

renews : {p : Phase} → IsLive p → Edge renew p p
renews live_ready = renews_ready
renews live_in_use = renews_in_use

pub live-active : {p : Phase} → IsLive p → lease_text p ≡ "ACTIVE"
live-active live_ready = refl
live-active live_in_use = refl

released-status :
    (now : ℕ) (l : Lease) → l.status ≡ "ACTIVE" → release_lease now l ≡ ok (ended "RELEASED" now l)
unfolding release_lease
released-status now l e = rw e refl

pub expired-status :
    (now : ℕ) (l : Lease) → l.status ≡ "ACTIVE" → (expire_lease now l).status ≡ "EXPIRED"
unfolding expire_lease
expired-status now l e = rw e refl

module _ (body : CommandRequest) (now : ℕ) (p : Phase) (h : Held) (s : Shows p h) where
  consumed :
      str_eq h.binding.status "READY" ≡ true
      → Next consume p (record h { binding = record h.binding { status = "IN_USE" } })
  unfolding Next
  consumed e =
      let is_ready = ready-eq p h s e in
      let still : lease_text p ≡ "ACTIVE" = ap lease_text is_ready in
      (
        in_use,
        (
          rw is_ready consumes,
          record { binding = refl; identity = s.identity ∙ still; runner = s.runner ∙ still },
        ),
      )

  consume-Refines : Ensures (Refined consume p) (consume_held body now h)
  unfolding Refined assert_active_leases
  consume-Refines = ground (arith, consumed)

  renewed-Next :
      is_live h.binding ≡ true
      → Next renew p (record h {
        identity = renewed identity_ttl now h.identity;
        runner = renewed runner_ttl now h.runner;
      })
  unfolding Next
  renewed-Next e = (
    p,
    (
      renews (is_live-IsLive p h s e),
      record { binding = s.binding; identity = s.identity; runner = s.runner },
    ),
  )

  renew-Refines : Ensures (Refined renew p) (renew_held body now h)
  unfolding Refined assert_active_leases
  renew-Refines = ground (arith, renewed-Next)

  -- A live binding has two active leases.
  live-leases :
      is_live h.binding ≡ true → (h.identity.status ≡ "ACTIVE") × (h.runner.status ≡ "ACTIVE")
  live-leases e =
      let live = live-active (is_live-IsLive p h s e) in (s.identity ∙ live, s.runner ∙ live)

  abbrev released_both : Held
  released_both = record {
    binding = record h.binding { status = "RELEASED"; released_at = some now };
    identity = ended "RELEASED" now h.identity;
    runner = ended "RELEASED" now h.runner;
  }

  released-Next : is_live h.binding ≡ true → Next release p released_both
  unfolding Next
  released-Next e = (
    released,
    (releases (is_live-IsLive p h s e), record { binding = refl; identity = refl; runner = refl }),
  )

  release_active-both :
      is_live h.binding ≡ true
      → release_active_leases h.identity h.runner now ≡ (
          assert_active_leases h.identity h.runner now
          >> ok (ended "RELEASED" now h.identity, ended "RELEASED" now h.runner))
  unfolding release_active_leases
  release_active-both e =
      let both = live-leases e in
      rw (released-status now h.identity both.0, released-status now h.runner both.1) refl

  release-Refines : Ensures (Refined release p) (release_held body now h)
  unfolding Refined assert_active_leases
  release-Refines = ground (arith, released-Next, released-eq p h s, release_active-both)

  abbrev expired_both : Held
  expired_both = record {
    binding = record h.binding { status = "EXPIRED"; expired_at = some now };
    identity = expire_lease now h.identity;
    runner = expire_lease now h.runner;
  }

  expired-Next : is_live h.binding ≡ true → Next recover p expired_both
  unfolding Next
  expired-Next e =
      let both = live-leases e in
      (
        expired,
        (
          expires (is_live-IsLive p h s e),
          record {
            binding = refl;
            identity = expired-status now h.identity both.0;
            runner = expired-status now h.runner both.1;
          },
        ),
      )

  module _ (db : Store) (user_id : String) (attempt : Option ExecutionAttempt) where
    recover-Refines : Ensures (Refined recover p) (recover_held db user_id attempt body now h)
    unfolding Refined
    recover-Refines = ground (arith, expired-Next)

    -- A binding that stands in a phase of the life, with both leases in the status of the phase, stands
    -- after a command that is carried out in the phase to which the command's edge leads, again with
    -- both leases in its status: READY to IN_USE by consume, no change by renew, RELEASED by release and
    -- EXPIRED by recover, the last two from READY and IN_USE only. The one exception is a release of a
    -- released binding, which changes nothing.
    pub act-Refined :
        (action : Action) → Ensures (Refined action p) (act action db user_id attempt body now h)
    unfolding act
    act-Refined consume = consume-Refines
    act-Refined renew = renew-Refines
    act-Refined release = release-Refines
    act-Refined recover = recover-Refines
