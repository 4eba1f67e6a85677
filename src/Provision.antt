-- ===== src/Provision.antt =====
-- The provisioning of execution owners: services/api/src/platform_api/execution_owner_service.py.
pub mod Requests
pub mod Store
pub mod Guards
pub mod Pages
pub mod Tasks
pub mod Attempts
mod Numbers
mod Kept
mod Served
mod Tests
