-- ===== src/Payment/Resolve.antt =====
-- What a webhook event implies: the `resolve_*` methods of the payment service
-- (server/src/service/payment_service.rs). They read and never write, so each is a `Query`.
-- `now` is the clock and `fresh_key` what `generate_license_key` draws.
use bank_statement_processor.Prelude.{
  ℕ, String, Bool, true, false, not, Option, none, some, str_eq, if◌then◌else◌,
}
use Prim.Native.String.{◌++◌}
use bank_statement_processor.Prelude.Int.{ℤ, pos, eq_ℤ}
use bank_statement_processor.Domain.Status.{
  PaymentStatus, SubscriptionStatus, LicenseRecordStatus, payment_status_eq,
}
use bank_statement_processor.Domain.Records.{Payment, License}
use bank_statement_processor.Repository.Db.{
  RepositoryError, database, invalid_data, duplicate_provider_reference, Result, ok, err, Query,
  return,
}
use bank_statement_processor.Repository.Query.{◌>>=◌}
use bank_statement_processor.Repository.Payments
use bank_statement_processor.Repository.Subscriptions
use bank_statement_processor.Repository.Licenses
use bank_statement_processor.Repository.WebhookEvents.{
  LicenseMutation, AffectedLicense, AffectedLicenseStatusChange, WebhookMutation, nothing,
  activate_subscription_and_license, mark_payment_failed, update_subscription_status,
  refund_payment, mark_payment_disputed, resolve_dispute,
}
use bank_statement_processor.Razorpay.Webhook.{
  Json, extract_entity_ref, extract_entity_id, extract_entity_amount_minor, extract_entity_currency,
  extract_dispute_status,
}
use bank_statement_processor.Payment.Plans.{period_end_from, decimal}

pub data PaymentOperationError : Type 0 where
  invalid_plan_type : PaymentOperationError
  provider_error : String → PaymentOperationError
  repository : RepositoryError → PaymentOperationError

abbrev pub from_result : {A : Type 0} → Result RepositoryError A → Result PaymentOperationError A
from_result (ok a) = ok a
from_result (err e) = err (repository e)

-- The amount or the currency of the payload is present and differs from the stored one.
unfoldable pub amount_mismatch : Option ℤ → Payment → Bool
amount_mismatch none p = false
amount_mismatch (some a) p = not (eq_ℤ a p.amount_minor)

unfoldable pub currency_mismatch : Option String → Payment → Bool
currency_mismatch none p = false
currency_mismatch (some c) p = not (str_eq c p.currency)

unfoldable pub is_refunded_or_disputed : PaymentStatus → Bool
is_refunded_or_disputed PaymentStatus.refunded = true
is_refunded_or_disputed PaymentStatus.disputed = true
is_refunded_or_disputed _ = false

unfoldable pub license_mutation : String → Option License → LicenseMutation
license_mutation fresh_key (some existing) = LicenseMutation.extend existing.id
license_mutation fresh_key none = LicenseMutation.insert fresh_key (pos 1) (pos 7)

unfoldable pub affected : Option License → Option AffectedLicense
affected none = none
affected (some l) = some (record { license_id = l.id; expires_at = l.expires_at })

unfoldable pub affected_status :
    LicenseRecordStatus → Option License → Option AffectedLicenseStatusChange
affected_status s none = none
affected_status s (some l) =
    some (record { license_id = l.id; expires_at = l.expires_at; status = s })

unfoldable pub duplicate_as_none :
    Result RepositoryError (Option Payment) → Result PaymentOperationError (Option Payment)
duplicate_as_none (ok found) = ok found
duplicate_as_none (err (duplicate_provider_reference r)) = ok none
duplicate_as_none (err database) = err (repository database)
duplicate_as_none (err (invalid_data m)) = err (repository (invalid_data m))

-- "won" and "lost" are the outcomes; any other status, or none, decides nothing.
unfoldable pub merchant_won : Option String → Option Bool
merchant_won none = none
merchant_won (some s) =
    if str_eq s "won" then some true else if str_eq s "lost" then some false else none

module _ {V : Type 0} where
  abbrev pub from_repository :
      {A : Type 0} → Query V RepositoryError A → Query V PaymentOperationError A
  from_repository q t o = let (r, o') = q t o in (from_result r, o')

  unfoldable pub find_payment_by_provider_ref_or_none :
      String → Query V PaymentOperationError (Option Payment)
  find_payment_by_provider_ref_or_none provider_ref t o =
      let (r, o') = Payments.find_by_provider_ref provider_ref t o in (duplicate_as_none r, o')

  -- The part of `resolve_activation` behind its guards.
  unfoldable pub activation_of :
      ℕ → String → Option String → Payment → Query V PaymentOperationError WebhookMutation
  activation_of now fresh_key gateway_payment_id payment = do
    found ← from_repository (Subscriptions.find_by_id payment.subscription_id)
    elim found [
      | none ↦ return (
          err (
            repository (
              invalid_data
                ("payment references missing subscription " ++ decimal payment.subscription_id))))
      | some subscription ↦ do
        existing ← from_repository (Licenses.find_latest_by_subscription subscription.id)
        return (
            ok (
              activate_subscription_and_license payment.id subscription.id
                (period_end_from now subscription.plan_type) (license_mutation fresh_key existing)
                gateway_payment_id))
    ]

  unfoldable pub resolve_activation :
      ℕ
      → String
      → String
      → Option String
      → Option ℤ
      → Option String
      → Query V PaymentOperationError WebhookMutation
  resolve_activation now fresh_key provider_ref gateway_payment_id amount currency = do
    found ← find_payment_by_provider_ref_or_none provider_ref
    elim found [
      | none ↦ return (ok nothing)
      | some payment ↦
          if amount_mismatch amount payment
          then return (ok nothing)
          else if currency_mismatch currency payment
          then return (ok nothing)
          else if is_refunded_or_disputed payment.status
          then return (ok nothing)
          else activation_of now fresh_key gateway_payment_id payment
    ]

  unfoldable pub find_payment_and_license :
      String → Query V PaymentOperationError (Option (Payment × Option AffectedLicense))
  find_payment_and_license gateway_payment_id = do
    found ← from_repository (Payments.find_by_gateway_payment_id gateway_payment_id)
    elim found [
      | none ↦ return (ok none)
      | some payment ↦ do
        license ← from_repository (Licenses.find_latest_by_subscription payment.subscription_id)
        return (ok (some (payment, affected license)))
    ]

  -- The mutation for the payment behind a gateway id, or none if there is no such payment.
  unfoldable pub with_payment_and_license :
      String
      → (Payment → Option AffectedLicense → WebhookMutation)
      → Query V PaymentOperationError WebhookMutation
  with_payment_and_license gateway_payment_id mutation = do
    found ← find_payment_and_license gateway_payment_id
    elim found [
      | none ↦ return (ok nothing)
      | some (payment, license) ↦ return (ok (mutation payment license))
    ]

module _ (J : Json) where
  open J use {Value}

  -- Shared by the three activation events, which differ in the entity that carries the reference.
  unfoldable pub resolve_activation_of :
      String → ℕ → String → Value → Query Value PaymentOperationError WebhookMutation
  resolve_activation_of entity_key now fresh_key payload =
      elim (extract_entity_ref J payload entity_key) [
        | none ↦ return (ok nothing)
        | some provider_ref ↦
            resolve_activation now fresh_key provider_ref (extract_entity_id J payload "payment")
              (extract_entity_amount_minor J payload "payment")
              (extract_entity_currency J payload "payment")
      ]

  unfoldable pub resolve_payment_captured :
      ℕ → String → Value → Query Value PaymentOperationError WebhookMutation
  resolve_payment_captured = resolve_activation_of "payment"

  unfoldable pub resolve_payment_link_paid :
      ℕ → String → Value → Query Value PaymentOperationError WebhookMutation
  resolve_payment_link_paid = resolve_activation_of "payment_link"

  unfoldable pub resolve_subscription_active :
      ℕ → String → Value → Query Value PaymentOperationError WebhookMutation
  resolve_subscription_active = resolve_activation_of "subscription"

  unfoldable pub resolve_payment_failed : Value → Query Value PaymentOperationError WebhookMutation
  resolve_payment_failed payload = elim (extract_entity_ref J payload "payment") [
    | none ↦ return (ok nothing)
    | some provider_ref ↦ do
      found ← find_payment_by_provider_ref_or_none provider_ref
      elim found [
        | none ↦ return (ok nothing)
        | some payment ↦
            if payment_status_eq payment.status PaymentStatus.pending
            then return (ok (mark_payment_failed payment.id))
            else return (ok nothing)
      ]
  ]

  -- `halted` suspends, `cancelled` revokes.
  unfoldable pub resolve_subscription_inactive :
      String → Value → Query Value PaymentOperationError WebhookMutation
  resolve_subscription_inactive event payload = elim (extract_entity_ref J payload "subscription") [
    | none ↦ return (ok nothing)
    | some provider_ref ↦ do
      found ← find_payment_by_provider_ref_or_none provider_ref
      elim found [
        | none ↦ return (ok nothing)
        | some payment ↦ do
          subscription? ← from_repository (Subscriptions.find_by_id payment.subscription_id)
          elim subscription? [
            | none ↦ return (ok nothing)
            | some subscription ↦ do
              let halted = str_eq event "subscription.halted"
              license ← from_repository (Licenses.find_latest_by_subscription subscription.id)
              return (
                  ok (
                    update_subscription_status subscription.id
                      (if halted
                        then SubscriptionStatus.suspended
                        else SubscriptionStatus.cancelled)
                      subscription.current_period_end
                      (affected_status
                        (if halted
                          then LicenseRecordStatus.suspended
                          else LicenseRecordStatus.revoked)
                        license)))
          ]
      ]
  ]

  unfoldable pub resolve_refund : Value → Query Value PaymentOperationError WebhookMutation
  resolve_refund payload = elim (extract_entity_id J payload "payment") [
    | none ↦ return (ok nothing)
    | some g ↦ with_payment_and_license g (λ p l. refund_payment p.id l)
  ]

  unfoldable pub resolve_dispute_created : Value → Query Value PaymentOperationError WebhookMutation
  resolve_dispute_created payload = elim (extract_entity_id J payload "payment") [
    | none ↦ return (ok nothing)
    | some g ↦ with_payment_and_license g (λ p l. mark_payment_disputed p.id l)
  ]

  unfoldable pub resolve_dispute_closed : Value → Query Value PaymentOperationError WebhookMutation
  resolve_dispute_closed payload = elim (extract_entity_id J payload "payment") [
    | none ↦ return (ok nothing)
    | some g ↦ elim (merchant_won (extract_dispute_status J payload)) [
      | none ↦ return (ok nothing)
      | some won ↦ with_payment_and_license g (λ p l. resolve_dispute p.id l won)
    ]
  ]
