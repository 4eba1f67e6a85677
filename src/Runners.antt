-- ===== src/Runners.antt =====
-- Runner readiness and execution slots: runner_readiness.py, runner_resource_reconciler.py and
-- execution_slot_service.py of services/api/src/platform_api.
pub mod Rows
pub mod Readiness
pub mod Versions
pub mod Slots
mod Tests
