-- ===== src/Billing.antt =====
-- Billing (backend/app/billing): the provider's webhooks and their durable ledger.
pub mod Events
pub mod Webhook
pub mod Deliveries
pub mod Exclusive
pub mod Marks
pub mod Endings
pub mod Once
pub mod Overlap
pub mod Orders
pub mod Refunds
pub mod Again
pub mod Racing
pub mod Charges
pub mod Settling
pub mod Grants
pub mod Mirror
pub mod Cancel
pub mod Checkout
pub mod Frozen
pub mod Charged
pub mod History
pub mod Regrant
mod Tests
