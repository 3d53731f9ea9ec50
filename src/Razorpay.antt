-- ===== src/Razorpay.antt =====
-- The client side of the payment provider (server/src/razorpay).
pub mod Webhook
pub mod Client
pub mod HttpClient
pub mod Checkout
