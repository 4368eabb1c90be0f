-- ===== src/Collection.antt =====
-- The collection of market data (backend/app/collection): the feeder of its queue.
pub mod Runs
pub mod Scheduler
pub mod Feeding
pub mod Single
pub mod Worker
pub mod Recording
mod Tests
