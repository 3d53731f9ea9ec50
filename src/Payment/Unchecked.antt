-- ===== src/Payment/Unchecked.antt =====
-- What reconciliation does for a captured payment without its amount
-- (server/src/service/payment_service.rs, `reconcile_one`, `reconcile_payload`, `resolve_activation`).
use bank_statement_processor.Prelude.{
  String, false, some, [], ◌∷◌, true, ◌≡◌, ◌≢◌, refl, ap, sym, ◌∙◌, arith, inl, inr, ◌==◌, find,
  Option-cases,
}
use bank_statement_processor.Prelude.Int.{ℤ}
use bank_statement_processor.Domain.Status.{PaymentStatus}
use bank_statement_processor.Domain.Records.{Payment, Subscription}
use bank_statement_processor.Repository.Db.{
  ok, Result-cases, Tables, Outages, query, fails, later, continue_cmd,
}
use bank_statement_processor.Repository.Payments
use bank_statement_processor.Repository.Payments.{
  with_provider_ref, single_payment_or_duplicate_error,
}
use bank_statement_processor.Razorpay.Webhook.{
  Json, RazorpayWebhookPayload, extract_entity_ref, extract_entity_amount_minor,
  extract_entity_currency,
}
use bank_statement_processor.Razorpay.Client.{RazorpayPayment}
use bank_statement_processor.Payment.Plans.{period_end_from}
use bank_statement_processor.Payment.Resolve.{
  amount_mismatch, currency_mismatch, is_refunded_or_disputed,
}
use bank_statement_processor.Payment.Process.{
  Env, event_kind, payment_captured, process_webhook_event,
}
use bank_statement_processor.Payment.Delivery.{seen}
use bank_statement_processor.Payment.Effects.{Activated}
use bank_statement_processor.Payment.Activated.{payment_activates}
use bank_statement_processor.Payment.Guards.{Untouched, activation_entity, activation_refused}
use bank_statement_processor.Payment.Reconcile.{
  reconcile_payload, find_local, heal, reconcile_one, reconcile_event_id,
}
use bank_statement_processor.Payment.Backstop.{
  reference, payload_ref, payload_amount, payload_currency, captured_kind, healing,
}

module _ (J : Json) where
  open J use {Value}

  found_by_reference :
      (p : RazorpayPayment) (l : Payment) (t : Tables Value)
      → with_provider_ref (reference J p) t.payments ≡ l ∷ []
      → find_local p t [] ≡ (ok (some l), [])
  unfolding find_local Payments.find_by_provider_ref query fails later
      single_payment_or_duplicate_error
  found_by_reference p l t h = elim (Option-cases p.order_id) [
    | inl e ↦ (let h' = rw e at h in rw (e, h'))
    | inr (order, e) ↦ (let h' = rw e at h in rw (e, h'))
  ]

  no_amount :
      (p : RazorpayPayment) (l : Payment)
      → amount_mismatch
          (extract_entity_amount_minor J
            (reconcile_payload J "payment.captured" p).payload
            "payment")
          l
        ≡ false
  unfolding amount_mismatch
  no_amount p l = rw (payload_amount J "payment.captured" p) refl

  no_currency :
      (p : RazorpayPayment) (l : Payment)
      → currency_mismatch
          (extract_entity_currency J (reconcile_payload J "payment.captured" p).payload "payment")
          l
        ≡ false
  unfolding currency_mismatch
  no_currency p l = rw (payload_currency J "payment.captured" p) refl

  -- What was healed without an error was processed without one.
  heal-process :
      (env : Env) (p : RazorpayPayment) (l : Payment) (event : String) (t : Tables Value)
      (o : Outages)
      → (heal J env p l event t o).0 ≡ ok true
      → ((process_webhook_event J env (reconcile_event_id l p) (reconcile_payload J event p) t o).0
          ≡ ok tt)
        × ((heal J env p l event t o).1
            ≡ (process_webhook_event J env
                (reconcile_event_id l p)
                (reconcile_payload J event p)
                t
                o).1)
  unfolding heal
  heal-process env p l event t o h =
      elim (Result-cases
        (process_webhook_event J env (reconcile_event_id l p) (reconcile_payload J event p) t
          o).0) [
            | inl (tt, k) ↦ (k, rw (k, continue_cmd) refl)
            | inr (x, k) ↦ (let false_claim = rw (k, continue_cmd) at h in absurd (cc))
          ]

  pending_stands :
      (l : Payment)
      → l.status ≡ PaymentStatus.pending
      → (is_refunded_or_disputed l.status ≡ false) × (l.status ≢ PaymentStatus.succeeded)
  unfolding is_refunded_or_disputed
  pending_stands l e = (rw e refl, λ k. ground arith)

  -- Reconciliation activates what the webhook refuses. Take a pending local payment, whatever its amount
  -- is, with its subscription, and a payment that the provider reports as captured under its reference.
  -- A `payment.captured` webhook for it with an amount that is not the stored one changes no payment,
  -- subscription, license or device. Reconciliation of it, when no statement fails and it is counted as
  -- healed and was not seen before, leaves the payment succeeded, its subscription active to the end of
  -- the plan's period and an active license that expires then: no amount is compared.
  pub reconciled_capture_unchecked :
      (env env' : Env) (p : RazorpayPayment) (l : Payment) (s : Subscription) (id : String)
      (w : RazorpayWebhookPayload Value) (amount : ℤ) (t : Tables Value) (o : Outages)
      → with_provider_ref (reference J p) t.payments ≡ l ∷ []
      → l.status ≡ PaymentStatus.pending
      → find (λ s. s.id == l.subscription_id) t.subscriptions ≡ some s
      → event_kind w.event ≡ payment_captured
      → extract_entity_ref J w.payload "payment" ≡ some (reference J p)
      → extract_entity_amount_minor J w.payload "payment" ≡ some amount
      → amount ≢ l.amount_minor
      → p.status ≡ "captured"
      → seen J (reconcile_event_id l p) t ≡ false
      → (reconcile_one J env p t []).0 ≡ ok true
      → Untouched t (process_webhook_event J env' id w t o).1
        × Activated l.id s.id (period_end_from env.now s.plan_type) (reconcile_one J env p t []).1
  reconciled_capture_unchecked env env' p l s id w amount t o found pending sub kind ref said ne
        captured fresh healed =
      let (standing, unpaid) = pending_stands l pending in
      let same = healing J env p l t captured (found_by_reference p l t found) unpaid in
      let (done, after) =
        heal-process env p l "payment.captured" t [] (ap (λ r. r.0) (sym same) ∙ healed) in
      (
        activation_refused J env' id w "payment" (reference J p) l t o (ap activation_entity kind)
            ref found (inl (amount, said, ne)),
        rw (same, after)
            (payment_activates J env (reconcile_event_id l p)
              (reconcile_payload J "payment.captured" p) "payment" (reference J p) l s t []
              (ap activation_entity (captured_kind J p)) (payload_ref J "payment.captured" p) found
              (no_amount p l) (no_currency p l) standing sub fresh done),
      )
