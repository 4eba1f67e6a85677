-- ===== src/Binding/Leases.antt =====
-- Leases and their fencing generations: `_lease_available`, `_acquire_lease`, `_release_lease`,
-- `_expire_lease` and `_resource_hash`.
use ai_auto_test_platform.Prelude.{
  ℕ, ◌+◌, ◌*◌, String, Option, none, some, List, [], ◌∷◌, Bool, not, ◌&&◌, str_eq, if◌then◌else◌,
  Result, ok, err, ◌>>=◌,
}
use ai_auto_test_platform.Runtime.{Runtime}
use ai_auto_test_platform.Idempotency.Framing.{framed}
use ai_auto_test_platform.Idempotency.Commands.{framed_bytes}
use ai_auto_test_platform.Owner.Session.{new_ulid, flush}
use ai_auto_test_platform.Runners.Readiness.{is_some}
use ai_auto_test_platform.Runners.Rows.{Lease}
use ai_auto_test_platform.Runners.Slots.{first, update_first}
use ai_auto_test_platform.Binding.Rows.{Generation}
use ai_auto_test_platform.Binding.Store.{Store, Encoding, fencing_conflict}

-- `timedelta(seconds=seconds)`, in microseconds
abbrev pub seconds : ℕ → ℕ
seconds n = n * 1000000

-- The constants `IDENTITY_LEASE_TTL_SECONDS` and `RUNNER_LEASE_TTL_SECONDS`.
abbrev pub identity_ttl : ℕ
identity_ttl = 600

abbrev pub runner_ttl : ℕ
runner_ttl = 120

-- The digest of both texts, each behind its length in four bytes.
unfoldable pub resource_hash : ⦃enc : Encoding⦄ → String → String → Result String
resource_hash ⦃enc⦄ resource_type identity =
    framed_bytes (framed enc.utf8 (resource_type ∷ identity ∷ [])) >>= λ bytes.
    ok (enc.digest bytes)

-- The rows of one resource.
abbrev pub generation_of : String → String → Generation → Bool
generation_of resource_type hash g =
    str_eq g.resource_type resource_type && str_eq g.resource_identity_hash hash

abbrev pub lease_of : String → String → Lease → Bool
lease_of resource_type hash lease =
    str_eq lease.resource_type resource_type && str_eq lease.resource_identity_hash hash

abbrev pub is_active : Lease → Bool
is_active lease = str_eq lease.status "ACTIVE"

unfoldable pub held : String → String → List Lease → Bool
held resource_type hash leases =
    is_some (first (λ (l : Lease). lease_of resource_type hash l && is_active l) leases)

unfoldable pub lease_available : ⦃enc : Encoding⦄ → String → String → Store → Result Bool
lease_available resource_type identity db =
    resource_hash resource_type identity >>= λ hash. ok (not (held resource_type hash db.leases))

-- The keyword arguments of `_acquire_lease`.
pub record Acquisition : Type 0 where
  pub project_id : String
  pub resource_type : String
  pub resource_identity : String
  pub owner_type : String
  pub owner_id : String
  pub ttl_seconds : ℕ
  pub now : ℕ
  pub correlation_id : String

-- `generation.current_generation += 1`
abbrev pub counted_up : ℕ → Generation → Generation
counted_up now row = record row {
  current_generation = row.current_generation + 1;
  updated_at = now;
}

-- The next generation of a resource, and the counters with it.
unfoldable pub next_generation :
    String → String → ℕ → Option Generation → List Generation → ℕ × List Generation
next_generation resource_type hash now none generations = (
  1,
  record {
    resource_type = resource_type;
    resource_identity_hash = hash;
    current_generation = 1;
    updated_at = now;
  }
      ∷ generations,
)
next_generation resource_type hash now (some g) generations = (
  g.current_generation + 1,
  update_first (generation_of resource_type hash) (counted_up now) generations,
)

unfoldable pub new_lease : Acquisition → String → String → ℕ → Lease
new_lease a hash id generation = record {
  resource_lease_id = id;
  project_id = a.project_id;
  resource_type = a.resource_type;
  resource_identity = a.resource_identity;
  resource_identity_hash = hash;
  owner_type = a.owner_type;
  owner_id = a.owner_id;
  status = "ACTIVE";
  acquired_at = a.now;
  expires_at = a.now + seconds a.ttl_seconds;
  released_at = none;
  fencing_generation = generation;
  correlation_id = a.correlation_id;
  row_version = 1;
  created_at = a.now;
  updated_at = a.now;
}

module _ ⦃rt : Runtime⦄ where
  unfoldable pub acquire_hashed : Acquisition → String → Store → Lease × Store
  acquire_hashed a hash db =
      let (generation, generations) =
        next_generation a.resource_type hash a.now
          (first (generation_of a.resource_type hash) db.generations) db.generations in
      let (id, session) = new_ulid db.session in
      let lease = new_lease a hash id generation in
      (
        lease,
        record db {
          generations = generations;
          leases = lease ∷ db.leases;
          session = flush session;
        },
      )

  unfoldable pub acquire_lease : ⦃enc : Encoding⦄ → Acquisition → Store → Result (Lease × Store)
  acquire_lease a db =
      resource_hash a.resource_type a.resource_identity >>= λ hash. ok (acquire_hashed a hash db)

abbrev pub ended : String → ℕ → Lease → Lease
ended status now lease = record lease {
  status = status;
  released_at = some now;
  updated_at = now;
  row_version = lease.row_version + 1;
}

unfoldable pub release_lease : ℕ → Lease → Result Lease
release_lease now lease =
    if str_eq lease.status "RELEASED"
    then ok lease
    else if str_eq lease.status "ACTIVE"
    then ok (ended "RELEASED" now lease)
    else err fencing_conflict

unfoldable pub expire_lease : ℕ → Lease → Lease
expire_lease now lease = if is_active lease then ended "EXPIRED" now lease else lease
