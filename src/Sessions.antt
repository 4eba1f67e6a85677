-- ===== src/Sessions.antt =====
-- Refresh sessions: services/api/src/platform_api/session_service.py, and `append` of audit.py.
pub mod Rows
pub mod Service
pub mod Table
pub mod Revocation
pub mod Keys
pub mod Limit
pub mod Login
pub mod Rotation
mod Tests
