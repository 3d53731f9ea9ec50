-- ===== src/Tests.antt =====
-- Concrete inputs: each theorem with hypotheses or parameters at one input, and runs of the model.
pub mod Document
pub mod Shop
pub mod Webhooks
pub mod Concurrent
pub mod Backstop
pub mod Offline
pub mod Purchases
pub mod Activations
pub mod Enforcement
pub mod Accounts
pub mod Endpoint
pub mod Matching
pub mod Addresses
pub mod Administration
pub mod Texts
pub mod Checkouts
