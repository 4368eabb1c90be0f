-- ===== src/Entitlements.antt =====
-- The entitlements of the membership plans (backend/app/billing/entitlements.py).
pub mod Limits
pub mod Normal
pub mod Reference
pub mod Agreement
mod Tests
