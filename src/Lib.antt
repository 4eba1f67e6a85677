-- ===== src/Lib.antt =====
-- The core of the test platform's control plane, services/api/src/platform_api: the lifecycles of
-- executions, the bindings and leases of their resources, the sessions and limits of authentication,
-- idempotent commands, and the readiness and slots of runners.
--
-- The parts. A formal execution needs a runner that is ready (Runners.Readiness,
-- Runners.Versions), one of its slots (Runners.Slots and Runners.Slots.Discovery), and owner rows,
-- which Provision creates and which go through their lifecycles with audit and outbox evidence
-- (Owner). A binding (Binding) ties an attempt to its account, runner and slot after a preflight,
-- and holds one lease on the account's identity and one on the runner's resource, each with a
-- generation that fences off earlier holders. A user reaches the commands through refresh sessions
-- (Sessions), behind a limit on the requests of one source (RateLimit), and a command that is sent
-- again is answered from its first run (Idempotency).
--
-- The files. Prelude has the shared names and lemmas; Prelude.Outcome has Python's exceptions as the
-- type Result. Runtime holds what the code takes from random sources, the clock and digests: the
-- n-th value that is drawn.
--   Owner: execution_owner_transitions.py. Rows has the rows RunTask, ExecutionAttempt,
--     ExecutionOwnerAudit and OutboxEvent of models.py; Session has the SQLAlchemy session without
--     autoflush (pending and written rows, `flush`); Transition has `_transition` and
--     `append_transition_evidence`; Task and Attempt have the three calls of each owner. Trail defines
--     a legal history; TaskTrail and AttemptTrail relate each call to it, Histories any sequence of
--     calls; Completion and Endings follow a task to its end.
--   Sessions: session_service.py and `append` of audit.py. Service has every method on the table of
--     refresh sessions; the other modules are on their effects.
--   KeyRing: auth_hmac.py, from the parsed entries of the key file on: `load`, `accepted_at` and
--     `digests`, whose answers are the digests of Idempotency and RateLimit.
--   Idempotency: idempotency.py. `look` and `act` are the two steps of `_claim`, between which
--     another transaction may commit. Search is on their queries, Replay on what a claim leaves,
--     Once on what later claims return, Race on two claims at once, Framing on the bytes that are
--     digested; Commands has the two public claims, with the digests of KeyRing.
--   RateLimit: rate_limit.py. `consume`, its window (Window) and its count (Permits), and
--     `resolve_source_ip` (Sources, Proxies).
--   Runners: runner_readiness.py (Readiness, Versions), runner_resource_reconciler.py (Slots) and
--     execution_slot_service.py (Slots.Discovery).
--   Binding: execution_binding_service.py. Rows, Facts and Store have the rows and tables, the
--     errors and the parameters; Leases has `_acquire_lease` and its like, Guards the `_assert_`
--     functions, Actions the branches of `command`, Resource the answer, Command the transaction,
--     Policies the runtime policies, Reads `list` and `get`, Preflight (with Required and Resolve)
--     `_resolve_preflight`, and Creation `preflight` and `create`. Phases has the abstract life of
--     a binding. Revisions is on the numbers of policies, Lookup and Rewrites are on rows that are
--     replaced, Fencing and Freeing on the generations and active leases of a resource, Moves on
--     what a command leaves alone; Carried, Execution, Holder, Refusals and Recovery are on
--     `command`, Fit and Start on the preflight and the creation, and Reach on any order of
--     transactions.
--   Provision: execution_owner_service.py. Requests has the bodies and answers, Store the tables and
--     helpers, Guards its checks, Pages the lists, Tasks and Attempts (each with
--     Commands) the creation, reading and update of an owner; Numbers, Kept and Served are on the numbers of attempts over any requests.
--
-- How code is rendered. A table is a list of rows, or a map where the code only asks by primary key;
-- a query is a function on it. An object that the session tracks is the row of that key. A function
-- that raises returns `err`, and its transaction is rolled back; `consume`, which raises after its
-- commit, has an outcome of its own. Times are microseconds as natural numbers. All loops are
-- structural, so there is no fuel.
--
-- Parameters, which stand for code outside these files: Runtime (random values, clock, SHA-256),
-- Versions.Unicode (white space and digits), Discovery.Authentication (who may act),
-- Sources.Addresses (the module ipaddress), Store.Encoding (UTF-8, digests, JSON and `repr` of the binding service), Store.Texts (UTF-8,
-- digests, JSON and `str` of the owner service), UTF-8 in Framing, HKDF and HMAC in KeyRing, and
-- the callback that recovers a command.
--
-- Not modelled: failures, locks and unique keys of the database; concurrency other than that
-- transactions on one row come one after the other; the routers and schemas; auth_service.py,
-- runner_service.py, the services of the other tables; the reading of the key file; the runner
-- agent, the workers, the tools and the web application.
mod Prelude
pub mod Runtime
pub mod Owner
pub mod Sessions
pub mod KeyRing
pub mod Idempotency
pub mod RateLimit
pub mod Runners
pub mod Binding
pub mod Provision
