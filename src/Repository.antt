-- ===== src/Repository.antt =====
-- The repositories of the licensing server (server/src/repository).
pub mod Db
pub mod Query
pub mod Cmd
pub mod Sql
pub mod Payments
pub mod Subscriptions
pub mod Licenses
pub mod Devices
pub mod WebhookEvents
pub mod Audit
pub mod Rows
pub mod Steady
pub mod Claims
pub mod Activation
pub mod Capacity
pub mod Users
pub mod Sessions
pub mod Admin
