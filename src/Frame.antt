-- ===== src/Frame.antt =====
-- The handlers that leave units, bookings, tenancies and the ledger alone, apart from a payment
-- that a provider reports: backend/app/api/routes/{landlords, properties, advertising, admin,
-- engagement, payment_webhooks, payment_reconciliation}.py.
mod Laws
pub mod Tables
pub mod Listed
pub mod Engaged
pub mod Reported
pub mod Delivered
mod Side
pub mod Effects
pub use Laws.*
unfoldable pub use Side.*
