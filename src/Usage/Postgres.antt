-- ===== src/Usage/Postgres.antt =====
-- The PostgreSQL usage ledger: backend/app/usage/db_ledger.py. Its tables are in Data, a stored
-- period key in Bucket, the steps of a transaction in Steps, the public methods in Calls.
pub mod Bucket
pub mod Data
pub mod Steps
pub mod Calls
pub mod Invariant
pub mod Recording
pub mod Living
pub mod Locking
pub mod Meter
pub mod Viewing
pub mod Charging
pub mod Transitions
pub mod History
pub mod RoundTrip
pub mod Progress
mod Tests
