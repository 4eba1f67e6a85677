-- ===== src/Owner.antt =====
-- RunTask and ExecutionAttempt: services/api/src/platform_api/execution_owner_transitions.py.
pub mod Rows
pub mod Session
pub mod Transition
pub mod Task
pub mod Attempt
pub mod Trail
pub mod TaskTrail
pub mod AttemptTrail
pub mod Histories
pub mod Completion
pub mod Endings
mod Tests
