-- ===== src/Usage.antt =====
-- Usage metering (backend/app/usage): the offline ledger.
pub mod Errors
pub mod Period
pub mod Ledger
pub mod Postgres
mod Tests
