-- ===== src/Tests/Shop.antt =====
-- A small database and the events of one purchase.
use bank_statement_processor.Prelude.{String, true, none, some, List, [], ◌∷◌}
use bank_statement_processor.Prelude.Int.{ℤ, pos}
use bank_statement_processor.Domain.Status.{PaymentStatus, PlanType, SubscriptionStatus, UserRole}
use bank_statement_processor.Domain.Records.{User, Payment, Subscription, License, Device}
use bank_statement_processor.Domain.Status.{payment_status_eq, license_status_eq}
use bank_statement_processor.Prelude.{any, find, select, update_where}
use bank_statement_processor.Repository.Db.{Tables, Cmd, exec, query, fails, later}
use bank_statement_processor.Repository.Sql.{column_eq, latest_by}
use bank_statement_processor.Repository.Payments
use bank_statement_processor.Repository.Subscriptions
use bank_statement_processor.Repository.Licenses
use bank_statement_processor.Repository.WebhookEvents.{
  claim_and_apply, claim_body, after_claim, apply_mutation, apply_license, update_affected,
  insert_claim, is_claimed, succeed_payment, coalesce,
}
use bank_statement_processor.Razorpay.Webhook.{
  RazorpayWebhookPayload, entity, extract_entity_ref, extract_entity_id,
  extract_entity_amount_minor, extract_entity_currency, extract_dispute_status,
}
use bank_statement_processor.Payment.Plans.{period_end_from}
use bank_statement_processor.Payment.Resolve.{
  PaymentOperationError, resolve_payment_captured, resolve_payment_link_paid,
  resolve_payment_failed, resolve_subscription_active, resolve_subscription_inactive,
  resolve_refund, resolve_dispute_created, resolve_dispute_closed, resolve_activation_of,
  resolve_activation, activation_of, find_payment_by_provider_ref_or_none, duplicate_as_none,
  find_payment_and_license, with_payment_and_license, merchant_won, amount_mismatch,
  currency_mismatch, is_refunded_or_disputed, license_mutation, affected, affected_status,
}
use bank_statement_processor.Payment.Process.{
  Env, process_webhook_event, resolve, resolve_kind, event_kind, claim, ledger_row,
}
use bank_statement_processor.Tests.Document.{
  documents, Document, text, integer, object, member, end,
}

abbrev pub buyer : User
buyer = record {
  id = 1;
  email = "a@b.in";
  password_hash = "h";
  full_name = none;
  company_name = none;
  role = UserRole.customer;
  created_at = 0;
  updated_at = 0;
}

abbrev pub purchase : Payment
purchase = record {
  id = 7;
  subscription_id = 3;
  amount_minor = pos 49900;
  currency = "INR";
  provider = "razorpay";
  provider_ref = some "order_1";
  gateway_payment_id = none;
  status = PaymentStatus.pending;
  created_at = 10;
}

abbrev pub monthly_plan : Subscription
monthly_plan = record {
  id = 3;
  user_id = 1;
  plan_type = PlanType.monthly;
  status = SubscriptionStatus.pending_payment;
  started_at = 10;
  current_period_end = none;
  auto_renew = true;
  created_at = 10;
  updated_at = 10;
}

abbrev pub shop_with : List Payment → List License → List Device → Tables Document
shop_with payments licenses devices = record {
  users = buyer ∷ [];
  sessions = [];
  payments = payments;
  subscriptions = monthly_plan ∷ [];
  licenses = licenses;
  devices = devices;
  payment_webhook_events = [];
  license_validation_logs = [];
  login_history = [];
  next_id = record {
    users = 2;
    sessions = 1;
    payments = 8;
    subscriptions = 4;
    licenses = 1;
    devices = 1;
  };
}

abbrev pub shop : Tables Document
shop = shop_with (purchase ∷ []) [] []

abbrev pub env : Env
env = record { now = 100; db_now = 100; fresh_key = "AAAA-BBBB-CCCC-DDDD" }

-- {"payment": {"entity": {"id": …, "order_id": …, "amount": …}}}
abbrev pub payment_payload : String → String → ℤ → Document
payment_payload id order amount = object (
    member "payment"
      (object (
        member "entity"
          (object (
            member "id" (text id)
              (member "order_id" (text order) (member "amount" (integer amount) end))))
          end))
      end)

abbrev pub captured : ℤ → RazorpayWebhookPayload Document
captured amount = record {
  event = "payment.captured";
  payload = payment_payload "pay_1" "order_1" amount;
}

-- Naming this on an `unfolding` line lets a whole call compute.
unfoldable pub run_event :
    Env → String → RazorpayWebhookPayload Document → Cmd Document PaymentOperationError Unit
unfolding process_webhook_event resolve resolve_kind event_kind claim ledger_row claim_and_apply
    claim_body after_claim apply_mutation apply_license update_affected insert_claim is_claimed any
    find select update_where exec query fails later column_eq latest_by resolve_payment_captured
    resolve_payment_link_paid resolve_payment_failed resolve_subscription_active
    resolve_subscription_inactive resolve_refund resolve_dispute_created resolve_dispute_closed
    resolve_activation_of resolve_activation activation_of find_payment_by_provider_ref_or_none
    duplicate_as_none find_payment_and_license with_payment_and_license merchant_won amount_mismatch
    currency_mismatch is_refunded_or_disputed license_mutation affected affected_status entity
    extract_entity_ref extract_entity_id extract_entity_amount_minor extract_entity_currency
    extract_dispute_status period_end_from Payments.find_by_provider_ref
    Payments.find_by_gateway_payment_id Payments.with_provider_ref
    Payments.single_payment_or_duplicate_error Payments.set_payment_status Payments.gateway_taken
    Payments.update_status Subscriptions.find_by_id Subscriptions.set_subscription_status
    Subscriptions.update_status Licenses.find_latest_by_subscription Licenses.is_live_of
    Licenses.set_license_status Licenses.extend Licenses.insert Licenses.insert_license_row
    Licenses.new_license_row succeed_payment coalesce payment_status_eq license_status_eq
run_event = process_webhook_event documents
