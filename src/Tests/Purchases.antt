-- ===== src/Tests/Purchases.antt =====
-- The theorems on checkout and activation at a concrete purchase.
use bank_statement_processor.Prelude.{true, some, [], ◌∷◌, ◌≡◌, refl}
use bank_statement_processor.Prelude.{any}
use bank_statement_processor.Prelude.Int.{pos}
use bank_statement_processor.Domain.Status.{PaymentStatus, PlanType, recognized, plan_type_from_str}
use bank_statement_processor.Repository.Db.{Tables, Result, ok, exec, fails, later}
use bank_statement_processor.Repository.Payments
use bank_statement_processor.Repository.Sql.{column_eq}
use bank_statement_processor.Repository.Subscriptions
use bank_statement_processor.Razorpay.Client.{
  RazorpayError, CreateCheckoutRequest, CreateCheckoutResponse,
}
use bank_statement_processor.Payment.Process.{
  process_webhook_event, CheckoutOutcome, create_checkout_session, checkout_plan,
}
use bank_statement_processor.Payment.Effects.{Activated}
use bank_statement_processor.Payment.Activated.{payment_activates}
use bank_statement_processor.Payment.Plans.{period_end_from}
use bank_statement_processor.Payment.Checkout.{Opened, checkout_opens}
use bank_statement_processor.Tests.Document.{documents, Document}
use bank_statement_processor.Payment.Refunds.{is_refunded, IsRevoked, refund_revokes}
use bank_statement_processor.Razorpay.Webhook.{RazorpayWebhookPayload}
use bank_statement_processor.Domain.Records.{Payment}
use bank_statement_processor.Tests.Activations.{issued}
use bank_statement_processor.Tests.Shop.{
  shop_with, payment_payload, run_event, shop, env, captured, purchase, monthly_plan,
}

payment_activates_example :
    Activated 7 3
      (period_end_from 100 PlanType.monthly)
      (process_webhook_event documents env "e1" (captured (pos 49900)) shop []).1
unfolding run_event
payment_activates_example =
    payment_activates documents env "e1" (captured (pos 49900)) "payment" "order_1" purchase
      monthly_plan shop [] refl refl refl refl refl refl refl refl refl

-- The provider answers every request with one order.
abbrev answer : CreateCheckoutRequest → Result RazorpayError CreateCheckoutResponse
answer r = ok (record { checkout_url = "https://pay"; provider_ref = "order_2" })

abbrev opened : CheckoutOutcome
opened = record { checkout_url = "https://pay"; provider_ref = "order_2" }

checkout_opens_example :
    (plan : PlanType) × (plan_type_from_str "yearly" ≡ recognized plan)
    × Opened env 1 plan "order_2" shop (create_checkout_session env answer 1 "yearly" shop []).1
unfolding create_checkout_session checkout_plan plan_type_from_str exec fails later any
    Subscriptions.insert Subscriptions.insert_subscription_row Payments.insert
    Payments.insert_payment_row Subscriptions.new_subscription_row Payments.provider_ref_taken
    column_eq
checkout_opens_example = checkout_opens env answer 1 "yearly" shop [] opened refl

abbrev paid : Payment
paid = record purchase { gateway_payment_id = some "pay_1"; status = PaymentStatus.succeeded }

abbrev paid_shop : Tables Document
paid_shop = shop_with (paid ∷ []) (issued ∷ []) []

abbrev refunded_event : RazorpayWebhookPayload Document
refunded_event = record {
  event = "refund.created";
  payload = payment_payload "pay_1" "order_1" (pos 49900);
}

refund_revokes_example :
    (any
        (is_refunded 7)
        (process_webhook_event documents env "e2" refunded_event paid_shop []).1.payments
      ≡ true)
    × IsRevoked
        (some issued)
        (process_webhook_event documents env "e2" refunded_event paid_shop []).1
unfolding run_event
refund_revokes_example =
    refund_revokes documents env "e2" refunded_event "pay_1" paid paid_shop [] refl refl refl refl
      refl
