-- ===== src/Tasks.antt =====
-- The service-task workflow (backend/app/service_tasks.py).
pub mod Data
pub mod Flow
pub mod Admin
pub mod Contact
pub mod Invariant
pub mod Updates
pub mod Matching
pub mod Lawful
pub mod Keeping
pub mod Governing
pub mod Granting
pub mod History
pub mod Completion
pub mod Bypass
mod Tests
