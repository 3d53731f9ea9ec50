-- ===== src/Payment.antt =====
-- The payment service (server/src/service/payment_service.rs).
pub mod Plans
pub mod Resolve
pub mod Process
pub mod Reconcile
pub mod Reads
pub mod Outages
pub mod Ledger
pub mod Delivery
pub mod Interleaving
pub mod Guards
pub mod Backstop
pub mod Refunds
pub mod Checkout
pub mod Effects
pub mod Activated
pub mod Retries
pub mod Unchecked
