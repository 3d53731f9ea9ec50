-- ===== src/Payment/Reads.antt =====
-- The reads of the webhook handlers when the database fails: an error of the database, or what they
-- give without a failure (server/src/service/payment_service.rs, the `resolve_*` methods).
use bank_statement_processor.Prelude.{ℕ, String, Option, refl}
use bank_statement_processor.Prelude.Int.{ℤ}
use bank_statement_processor.Domain.Status.{payment_status_eq, PaymentStatus}
use bank_statement_processor.Domain.Records.{Payment}
use bank_statement_processor.Repository.Db.{database, ok}
use bank_statement_processor.Repository.Steady.{
  Steady, return-Steady, query-Steady, bind-Steady, map-Steady, if-Steady, match-Steady,
}
use bank_statement_processor.Repository.Payments
use bank_statement_processor.Repository.Subscriptions
use bank_statement_processor.Repository.Licenses
use bank_statement_processor.Repository.WebhookEvents.{
  AffectedLicense, WebhookMutation, nothing, mark_payment_failed, refund_payment,
  mark_payment_disputed, resolve_dispute,
}
use bank_statement_processor.Razorpay.Webhook.{
  Json, RazorpayWebhookPayload, extract_entity_ref, extract_entity_id, extract_dispute_status,
}
use bank_statement_processor.Payment.Process.{
  Env, EventKind, payment_captured, payment_link_paid, payment_failed, subscription_active,
  subscription_inactive, refund, dispute_created, dispute_closed, unrecognized_event, resolve_kind,
}
use bank_statement_processor.Payment.Resolve.{
  PaymentOperationError, amount_mismatch, currency_mismatch, is_refunded_or_disputed,
  resolve_activation_of, resolve_payment_captured, resolve_payment_link_paid,
  resolve_payment_failed, resolve_subscription_active, resolve_subscription_inactive,
  resolve_refund, resolve_dispute_created, resolve_dispute_closed, merchant_won, repository,
  from_result, duplicate_as_none, from_repository, find_payment_by_provider_ref_or_none,
  activation_of, resolve_activation, find_payment_and_license, with_payment_and_license,
}

abbrev failure : PaymentOperationError
failure = repository database

module _ {V : Type 0} where
  find-Steady : (r : String) → Steady database (Payments.find_by_provider_ref {V = V} r)
  unfolding Payments.find_by_provider_ref
  find-Steady r = bind-Steady database (query-Steady database _) (λ rows. return-Steady database _)

  local-Steady :
      (r : String) → Steady (repository database) (find_payment_by_provider_ref_or_none {V = V} r)
  unfolding find_payment_by_provider_ref_or_none duplicate_as_none
  local-Steady r = map-Steady duplicate_as_none refl (find-Steady r)

  subscription-Steady :
      (id : ℕ)
      → Steady (repository database) (from_repository (Subscriptions.find_by_id {V = V} id))
  unfolding Subscriptions.find_by_id
  subscription-Steady id = map-Steady from_result refl (query-Steady database _)

  license-Steady :
      (id : ℕ)
      → Steady
          (repository database)
          (from_repository (Licenses.find_latest_by_subscription {V = V} id))
  unfolding Licenses.find_latest_by_subscription
  license-Steady id = map-Steady from_result refl (query-Steady database _)

  gateway-Steady :
      (g : String)
      → Steady
          (repository database)
          (from_repository (Payments.find_by_gateway_payment_id {V = V} g))
  unfolding Payments.find_by_gateway_payment_id
  gateway-Steady g = map-Steady from_result refl (query-Steady database _)

  activation_of-Steady :
      (now : ℕ) (key : String) (g : Option String) (p : Payment)
      → Steady (repository database) (activation_of {V = V} now key g p)
  unfolding activation_of
  activation_of-Steady now key g p =
      bind-Steady (repository database) (subscription-Steady p.subscription_id) λ found.
        match-Steady found (return-Steady _ _)
          λ s. bind-Steady (repository database) (license-Steady s.id) λ l. return-Steady _ _

  resolve_activation-Steady :
      (now : ℕ) (key r : String) (g : Option String) (a : Option ℤ) (c : Option String)
      → Steady (repository database) (resolve_activation {V = V} now key r g a c)
  unfolding resolve_activation
  resolve_activation-Steady now key r g a c = bind-Steady failure (local-Steady r) λ found.
      match-Steady found (return-Steady failure (ok nothing)) λ p.
        if-Steady (amount_mismatch a p) (return-Steady failure (ok nothing)) (
          if-Steady (currency_mismatch c p) (return-Steady failure (ok nothing)) (
            if-Steady (is_refunded_or_disputed p.status) (return-Steady failure (ok nothing))
              (activation_of-Steady now key g p)))

  find_payment_and_license-Steady :
      (g : String) → Steady (repository database) (find_payment_and_license {V = V} g)
  unfolding find_payment_and_license
  find_payment_and_license-Steady g = bind-Steady (repository database) (gateway-Steady g) λ found.
      match-Steady found (return-Steady _ _) λ p.
        bind-Steady (repository database) (license-Steady p.subscription_id) λ l. return-Steady _ _

  with_payment_and_license-Steady :
      (g : String) (mutation : Payment → Option AffectedLicense → WebhookMutation)
      → Steady (repository database) (with_payment_and_license {V = V} g mutation)
  unfolding with_payment_and_license
  with_payment_and_license-Steady g mutation =
      bind-Steady (repository database) (find_payment_and_license-Steady g)
        λ found. match-Steady found (return-Steady _ _) λ p. return-Steady _ _

module _ (J : Json) where
  open J use {Value}

  resolve_activation_of-Steady :
      (key : String) (now : ℕ) (fresh : String) (v : Value)
      → Steady (repository database) (resolve_activation_of J key now fresh v)
  unfolding resolve_activation_of
  resolve_activation_of-Steady key now fresh v =
      match-Steady (extract_entity_ref J v key) (return-Steady failure (ok nothing))
        λ r. resolve_activation-Steady now fresh r _ _ _

  resolve_payment_failed-Steady :
      (v : Value) → Steady (repository database) (resolve_payment_failed J v)
  unfolding resolve_payment_failed
  resolve_payment_failed-Steady v =
      match-Steady (extract_entity_ref J v "payment") (return-Steady failure (ok nothing)) λ r.
        bind-Steady failure (local-Steady r) λ found.
          match-Steady found (return-Steady failure (ok nothing)) λ p.
            if-Steady (payment_status_eq p.status PaymentStatus.pending)
              (return-Steady failure (ok (mark_payment_failed p.id)))
              (return-Steady failure (ok nothing))

  resolve_subscription_inactive-Steady :
      (event : String) (v : Value)
      → Steady (repository database) (resolve_subscription_inactive J event v)
  unfolding resolve_subscription_inactive
  resolve_subscription_inactive-Steady event v =
      match-Steady (extract_entity_ref J v "subscription") (return-Steady failure (ok nothing)) λ r.
        bind-Steady failure (local-Steady r) λ found.
          match-Steady found (return-Steady failure (ok nothing)) λ p.
            bind-Steady failure (subscription-Steady p.subscription_id) λ s?.
              match-Steady s? (return-Steady failure (ok nothing))
                λ s. bind-Steady failure (license-Steady s.id) λ l. return-Steady failure _

  resolve_dispute_closed-Steady :
      (v : Value) → Steady (repository database) (resolve_dispute_closed J v)
  unfolding resolve_dispute_closed
  resolve_dispute_closed-Steady v =
      match-Steady (extract_entity_id J v "payment") (return-Steady failure (ok nothing)) λ g.
        match-Steady (merchant_won (extract_dispute_status J v))
          (return-Steady failure (ok nothing))
          λ won. with_payment_and_license-Steady g (λ p l. resolve_dispute p.id l won)

  pub resolve_kind-Steady :
      (env : Env) (k : EventKind) (p : RazorpayWebhookPayload Value)
      → Steady (repository database) (resolve_kind J env k p)
  unfolding resolve_kind resolve_payment_captured resolve_payment_link_paid
      resolve_subscription_active resolve_refund resolve_dispute_created
  resolve_kind-Steady env payment_captured p = resolve_activation_of-Steady _ _ _ _
  resolve_kind-Steady env payment_link_paid p = resolve_activation_of-Steady _ _ _ _
  resolve_kind-Steady env subscription_active p = resolve_activation_of-Steady _ _ _ _
  resolve_kind-Steady env payment_failed p = resolve_payment_failed-Steady p.payload
  resolve_kind-Steady env subscription_inactive p =
      resolve_subscription_inactive-Steady p.event p.payload
  resolve_kind-Steady env refund p =
      match-Steady (extract_entity_id J p.payload "payment") (return-Steady failure (ok nothing))
        λ g. with_payment_and_license-Steady g (λ q l. refund_payment q.id l)
  resolve_kind-Steady env dispute_created p =
      match-Steady (extract_entity_id J p.payload "payment") (return-Steady failure (ok nothing))
        λ g. with_payment_and_license-Steady g (λ q l. mark_payment_disputed q.id l)
  resolve_kind-Steady env dispute_closed p = resolve_dispute_closed-Steady p.payload
  resolve_kind-Steady env unrecognized_event p = return-Steady _ _
