-- ===== src/Payment/Process.antt =====
-- `process_webhook_event` and `create_checkout_session` (server/src/service/payment_service.rs).
use bank_statement_processor.Prelude.{ℕ, String, true, none, some, ◌||◌, str_eq, if◌then◌else◌}
use Prim.Native.String.{◌++◌}
use bank_statement_processor.Domain.Status.{
  PaymentStatus, PlanType, SubscriptionStatus, recognized, unrecognized, plan_type_from_str,
}
use bank_statement_processor.Domain.Records.{NewPaymentWebhookEvent}
use bank_statement_processor.Repository.Db.{
  RepositoryError, Result, ok, err, Query, Cmd, return, reads,
}
use bank_statement_processor.Repository.Cmd.{◌>>=◌, ◌>>◌}
use bank_statement_processor.Repository.Payments
use bank_statement_processor.Repository.Subscriptions
use bank_statement_processor.Repository.WebhookEvents.{
  WebhookMutation, nothing, ClaimOutcome, claim_and_apply,
}
use bank_statement_processor.Razorpay.Webhook.{Json, RazorpayWebhookPayload}
use bank_statement_processor.Razorpay.Client.{
  RazorpayError, not_configured, http, transient, permanent, CreateCheckoutRequest,
  CreateCheckoutResponse,
}
use bank_statement_processor.Payment.Plans.{plan_amount_minor, decimal}
use bank_statement_processor.Payment.Resolve.{
  PaymentOperationError, invalid_plan_type, provider_error, from_result, resolve_payment_captured,
  resolve_payment_link_paid, resolve_payment_failed, resolve_subscription_active,
  resolve_subscription_inactive, resolve_refund, resolve_dispute_created, resolve_dispute_closed,
}

abbrev pub provider_name : String
provider_name = "razorpay"

-- What a call takes from its surroundings: the clock of the server, the clock of the database, and
-- the key that `generate_license_key` draws.
pub record Env : Type 0 where
  pub now : ℕ
  pub db_now : ℕ
  pub fresh_key : String

pub data EventKind : Type 0 where
  payment_captured payment_link_paid payment_failed subscription_active subscription_inactive :
      EventKind
  refund dispute_created dispute_closed unrecognized_event : EventKind

-- The arms of the `match` on the event's name.
unfoldable pub event_kind : String → EventKind
event_kind e =
    if str_eq e "payment.captured"
    then payment_captured
    else if str_eq e "payment_link.paid"
    then payment_link_paid
    else if str_eq e "payment.failed"
    then payment_failed
    else if str_eq e "subscription.activated" || str_eq e "subscription.charged"
    then subscription_active
    else if str_eq e "subscription.cancelled" || str_eq e "subscription.halted"
    then subscription_inactive
    else if str_eq e "refund.created" || str_eq e "refund.processed"
    then refund
    else if str_eq e "payment.dispute.created"
    then dispute_created
    else if str_eq e "payment.dispute.closed"
    then dispute_closed
    else unrecognized_event

abbrev pub from_repository_cmd :
    {V A : Type 0} → Cmd V RepositoryError A → Cmd V PaymentOperationError A
from_repository_cmd m t o = let (r, t', o') = m t o in (from_result r, t', o')

module _ (J : Json) where
  open J use {Value}

  unfoldable pub resolve_kind :
      Env
      → EventKind
      → RazorpayWebhookPayload Value
      → Query Value PaymentOperationError WebhookMutation
  resolve_kind env payment_captured p = resolve_payment_captured J env.now env.fresh_key p.payload
  resolve_kind env payment_link_paid p = resolve_payment_link_paid J env.now env.fresh_key p.payload
  resolve_kind env payment_failed p = resolve_payment_failed J p.payload
  resolve_kind env subscription_active p =
      resolve_subscription_active J env.now env.fresh_key p.payload
  resolve_kind env subscription_inactive p = resolve_subscription_inactive J p.event p.payload
  resolve_kind env refund p = resolve_refund J p.payload
  resolve_kind env dispute_created p = resolve_dispute_created J p.payload
  resolve_kind env dispute_closed p = resolve_dispute_closed J p.payload
  resolve_kind env unrecognized_event p = return (ok nothing)

  unfoldable pub resolve :
      Env → RazorpayWebhookPayload Value → Query Value PaymentOperationError WebhookMutation
  resolve env p = resolve_kind env (event_kind p.event) p

  unfoldable pub ledger_row : String → RazorpayWebhookPayload Value → NewPaymentWebhookEvent Value
  ledger_row event_id p = record {
    provider = provider_name;
    event_id = event_id;
    event_type = p.event;
    payload = p.payload;
  }

  -- The second half: claim the event, and apply what was resolved.
  unfoldable pub claim :
      Env
      → String
      → RazorpayWebhookPayload Value
      → WebhookMutation
      → Cmd Value PaymentOperationError ClaimOutcome
  claim env event_id p mutation =
      from_repository_cmd (claim_and_apply env.db_now (ledger_row event_id p) mutation)

  unfoldable pub process_webhook_event :
      Env → String → RazorpayWebhookPayload Value → Cmd Value PaymentOperationError Unit
  process_webhook_event env event_id p = do
    mutation ← reads (resolve env p)
    claim env event_id p mutation
    reads (return (ok tt))

pub record CheckoutOutcome : Type 0 where
  pub checkout_url : String
  pub provider_ref : String

-- `e.to_string()`
unfoldable pub razorpay_error_text : RazorpayError → String
razorpay_error_text (not_configured m) = "razorpay not configured: " ++ m
razorpay_error_text (http m) = "razorpay request failed: " ++ m
razorpay_error_text (transient m) = "razorpay request failed (transient, will retry): " ++ m
razorpay_error_text (permanent m) = "razorpay request failed (permanent): " ++ m

abbrev pub provider_answer : {A : Type 0} → Result RazorpayError A → Result PaymentOperationError A
provider_answer (ok a) = ok a
provider_answer (err e) = err (provider_error (razorpay_error_text e))

module _ {V : Type 0} where
  -- `checkout` is what the provider answers to the request.
  unfoldable pub checkout_plan :
      Env
      → (CreateCheckoutRequest → Result RazorpayError CreateCheckoutResponse)
      → ℕ
      → PlanType
      → Cmd V PaymentOperationError CheckoutOutcome
  checkout_plan env checkout user_id plan_type = do
    subscription ← from_repository_cmd (
        Subscriptions.insert
          (record {
            user_id = user_id;
            plan_type = plan_type;
            status = SubscriptionStatus.pending_payment;
            started_at = env.now;
            current_period_end = none;
            auto_renew = true;
          })
          env.db_now)
    let amount_minor = plan_amount_minor plan_type
    answer ← reads (
        return (
          provider_answer (
            checkout (record {
              plan_type = plan_type;
              amount_minor = amount_minor;
              currency = "INR";
              receipt = "sub_" ++ decimal subscription.id;
            }))))
    from_repository_cmd (
        Payments.insert
          (record {
            subscription_id = subscription.id;
            amount_minor = amount_minor;
            currency = "INR";
            provider = provider_name;
            provider_ref = some answer.provider_ref;
            status = PaymentStatus.pending;
          })
          env.db_now)
    reads (
        return
          (ok (record { checkout_url = answer.checkout_url; provider_ref = answer.provider_ref })))

  unfoldable pub create_checkout_session :
      Env
      → (CreateCheckoutRequest → Result RazorpayError CreateCheckoutResponse)
      → ℕ
      → String
      → Cmd V PaymentOperationError CheckoutOutcome
  create_checkout_session env checkout user_id plan_type_str =
      elim (plan_type_from_str plan_type_str) [
        | unrecognized other ↦ reads (return (err invalid_plan_type))
        | recognized plan_type ↦ checkout_plan env checkout user_id plan_type
      ]
