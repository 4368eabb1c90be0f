-- ===== src/RateLimit.antt =====
-- The rate limit that the instances share (backend/app/rate_limit.py).
pub mod Window
pub mod Cap
mod Tests
