-- ===== src/Reports.antt =====
-- The durable report queue and its worker (backend/app/report_worker.py, backend/app/main.py).
pub mod Data
pub mod Queue
pub mod Worker
pub mod History
pub mod Attempts
pub mod Taking
pub mod Fencing
pub mod Failing
pub mod Passing
mod Tests
