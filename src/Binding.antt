-- ===== src/Binding.antt =====
-- Execution bindings and the leases of resources:
-- services/api/src/platform_api/execution_binding_service.py.
pub mod Rows
pub mod Facts
pub mod Store
pub mod Lookup
pub mod Leases
pub mod Fencing
pub mod Freeing
pub mod Guards
pub mod Actions
pub mod Phases
pub mod Moves
pub mod Resource
pub mod Command
pub mod Carried
pub mod Rewrites
pub mod Execution
pub mod Holder
pub mod Refusals
pub mod Recovery
pub mod Preflight
pub mod Creation
pub mod Fit
pub mod Start
pub mod Reach
pub mod Policies
pub mod Reads
pub mod Revisions
pub mod Samples
mod Tests
