-- ===== src/Usage/Ledger.antt =====
-- The offline usage ledger: `class Ledger` of backend/app/usage/ledger.py. Its keys are in Data, its
-- rows and state in State, the steps of a call in Steps, the public methods in Calls.
pub mod Data
pub mod State
pub mod Steps
pub mod Calls
pub mod Rules
pub mod Invariant
pub mod Updates
pub mod Outcomes
pub mod Endings
pub mod History
pub mod Effects
pub mod Accounting
pub mod Replay
pub mod Settlement
pub mod Kept
pub mod Once
pub mod Pinning
