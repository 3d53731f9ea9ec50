-- ===== src/Razorpay/Client.antt =====
-- What the client of the payment provider takes and gives (server/src/razorpay/client.rs).
use bank_statement_processor.Prelude.{String, Option}
use bank_statement_processor.Prelude.Int.{ℤ}
use bank_statement_processor.Domain.Status.{PlanType}

pub data RazorpayError : Type 0 where
  not_configured http transient permanent : String → RazorpayError

pub record CreateCheckoutRequest : Type 0 where
  pub plan_type : PlanType
  pub amount_minor : ℤ
  pub currency : String
  pub receipt : String

pub record CreateCheckoutResponse : Type 0 where
  pub checkout_url : String
  pub provider_ref : String

pub record RazorpayPayment : Type 0 where
  pub id : String
  pub order_id : Option String
  pub status : String
