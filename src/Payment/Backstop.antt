-- ===== src/Payment/Backstop.antt =====
-- What the reconciliation job does with a payment whose webhook never arrived
-- (server/src/service/payment_service.rs, `reconcile_one`).
use bank_statement_processor.Prelude.{
  ℕ, String, true, false, Option, none, some, [], ◌∷◌, ◌≡◌, ◌∙◌, ap, ◌≢◌, refl, ◌⊎◌, inl, inr,
  arith,
}
use bank_statement_processor.Prelude.Int.{ℤ}
use bank_statement_processor.Domain.Status.{PaymentStatus, payment_status_eq}
use bank_statement_processor.Domain.Records.{Payment}
use bank_statement_processor.Repository.Db.{ok, Tables, query, exec, fails, later, continue_cmd}
use bank_statement_processor.Repository.Payments
use bank_statement_processor.Repository.Payments.{
  with_provider_ref, single_payment_or_duplicate_error,
}
use bank_statement_processor.Repository.WebhookEvents.{
  nothing, insert_claim, after_claim, claim_body, claim_and_apply, apply_mutation, applied,
  already_processed,
}
use bank_statement_processor.Razorpay.Webhook.{
  Json, extract_entity_ref, extract_entity_id, extract_entity_amount_minor, extract_entity_currency,
  or_else, RazorpayWebhookPayload,
}
use bank_statement_processor.Razorpay.Client.{RazorpayPayment}
use bank_statement_processor.Payment.Plans.{map_razorpay_payment_status}
use bank_statement_processor.Payment.Resolve.{
  resolve_activation, resolve_activation_of, resolve_payment_captured,
  find_payment_by_provider_ref_or_none, duplicate_as_none,
}
use bank_statement_processor.Payment.Process.{
  Env, event_kind, payment_captured, resolve_kind, resolve, claim, process_webhook_event,
}
use bank_statement_processor.Payment.Guards.{Untouched, process_idle}
use bank_statement_processor.Payment.Reconcile.{
  json_option, reconcile_payload, reconcile_event_type, find_local, heal, reconcile_one,
  reconcile_event_id,
}

module _ (J : Json) where
  open J use {Value}

  -- The reference of the synthetic payload: the order if there is one, else the payment.
  abbrev pub reference : RazorpayPayment → String
  reference p = elim p.order_id [ none ↦ p.id | some order ↦ order ]

  order_or_id :
      (order : Option String) (id : String)
      → or_else (J.as_str (json_option J order)) (J.as_str (J.string id))
        ≡ some (elim order [ none ↦ id | some o ↦ o ])
  unfolding json_option
  order_or_id none id = simp (J.as_str-null, J.as_str-string)
  order_or_id (some o) id = simp (J.as_str-string)

  pub payload_ref :
      (event : String) (p : RazorpayPayment)
      → extract_entity_ref J (reconcile_payload J event p).payload "payment" ≡ some (reference p)
  unfolding extract_entity_ref reconcile_payload
  payload_ref event p = simp (J.get-object) (order_or_id p.order_id p.id)

  payload_id :
      (event : String) (p : RazorpayPayment)
      → extract_entity_id J (reconcile_payload J event p).payload "payment" ≡ some p.id
  unfolding extract_entity_id reconcile_payload
  payload_id event p = simp (J.get-object, J.as_str-string)

  pub payload_amount :
      (event : String) (p : RazorpayPayment)
      → extract_entity_amount_minor J (reconcile_payload J event p).payload "payment" ≡ none
  unfolding extract_entity_amount_minor reconcile_payload
  payload_amount event p = simp (J.get-object)

  pub payload_currency :
      (event : String) (p : RazorpayPayment)
      → extract_entity_currency J (reconcile_payload J event p).payload "payment" ≡ none
  unfolding extract_entity_currency reconcile_payload
  payload_currency event p = simp (J.get-object)

  activation_parts :
      (now : ℕ) (key r : String) (v : Value) (g : Option String) (a : Option ℤ) (c : Option String)
      → extract_entity_ref J v "payment" ≡ some r
      → extract_entity_id J v "payment" ≡ g
      → extract_entity_amount_minor J v "payment" ≡ a
      → extract_entity_currency J v "payment" ≡ c
      → resolve_activation_of J "payment" now key v ≡ resolve_activation now key r g a c
  unfolding resolve_activation_of
  activation_parts now key r v g a c ref id amount currency =
      rw (ref, id, amount, currency, resolve_activation_of)

  resolve_captured :
      (env : Env) (v : RazorpayWebhookPayload Value)
      → event_kind v.event ≡ payment_captured
      → resolve J env v ≡ resolve_activation_of J "payment" env.now env.fresh_key v.payload
  unfolding resolve resolve_kind resolve_payment_captured
  resolve_captured env v e = rw e

  pub captured_kind :
      (p : RazorpayPayment)
      → event_kind (reconcile_payload J "payment.captured" p).event ≡ payment_captured
  unfolding event_kind reconcile_payload
  captured_kind p = refl

  captured_resolves :
      (env : Env) (p : RazorpayPayment)
      → resolve J env (reconcile_payload J "payment.captured" p)
        ≡ resolve_activation env.now env.fresh_key (reference p) (some p.id) none none
  captured_resolves env p =
      resolve_captured env (reconcile_payload J "payment.captured" p) (captured_kind p)
      ∙ activation_parts env.now env.fresh_key (reference p)
          (reconcile_payload J "payment.captured" p).payload (some p.id) none none
          (payload_ref "payment.captured" p) (payload_id "payment.captured" p)
          (payload_amount "payment.captured" p) (payload_currency "payment.captured" p)

  unknown_reference :
      (now : ℕ) (key r : String) (g : Option String) (a : Option ℤ) (c : Option String)
      (t : Tables Value)
      → with_provider_ref r t.payments ≡ []
      → resolve_activation now key r g a c t [] ≡ (ok nothing, [])
  unfolding resolve_activation find_payment_by_provider_ref_or_none Payments.find_by_provider_ref
      query fails later single_payment_or_duplicate_error duplicate_as_none
  unknown_reference now key r g a c t h = rw h

  captured_idle :
      (env : Env) (p : RazorpayPayment) (order : String) (t : Tables Value)
      → p.order_id ≡ some order
      → with_provider_ref order t.payments ≡ []
      → resolve J env (reconcile_payload J "payment.captured" p) t [] ≡ (ok nothing, [])
  captured_idle env p order t h none_by_order = rw (captured_resolves env p) (
      unknown_reference env.now env.fresh_key (reference p) (some p.id) none none t
        (rw h none_by_order))

  nothing_claimed :
      (env : Env) (id : String) (v : RazorpayWebhookPayload Value) (t : Tables Value)
      → ((claim J env id v nothing t []).0 ≡ ok applied)
        ⊎ ((claim J env id v nothing t []).0 ≡ ok already_processed)
  unfolding claim claim_and_apply claim_body exec insert_claim after_claim apply_mutation fails
      later
  nothing_claimed env id v t = ground arith

  idle_ok :
      (env : Env) (id : String) (v : RazorpayWebhookPayload Value) (t : Tables Value)
      → resolve J env v t [] ≡ (ok nothing, [])
      → (process_webhook_event J env id v t []).0 ≡ ok tt
  unfolding process_webhook_event
  idle_ok env id v t h = rw h (elim (nothing_claimed env id v t) [
    | inl l ↦ rw (l, continue_cmd)
    | inr l ↦ rw (l, continue_cmd)
  ])

  found_by_id :
      (p : RazorpayPayment) (order : String) (l : Payment) (t : Tables Value)
      → p.order_id ≡ some order
      → with_provider_ref order t.payments ≡ []
      → with_provider_ref p.id t.payments ≡ l ∷ []
      → find_local p t [] ≡ (ok (some l), [])
  unfolding find_local Payments.find_by_provider_ref query fails later
      single_payment_or_duplicate_error
  found_by_id p order l t o none_by_order one_by_id = rw (o, none_by_order, one_by_id)

  differs :
      (s : PaymentStatus)
      → s ≢ PaymentStatus.succeeded
      → payment_status_eq s PaymentStatus.succeeded ≡ false
  unfolding payment_status_eq
  differs PaymentStatus.succeeded ne = absurd (ne refl)
  differs PaymentStatus.pending ne = refl
  differs PaymentStatus.failed ne = refl
  differs PaymentStatus.refunded ne = refl
  differs PaymentStatus.disputed ne = refl

  pub healing :
      (env : Env) (p : RazorpayPayment) (l : Payment) (t : Tables Value)
      → p.status ≡ "captured"
      → find_local p t [] ≡ (ok (some l), [])
      → l.status ≢ PaymentStatus.succeeded
      → reconcile_one J env p t [] ≡ heal J env p l "payment.captured" t []
  unfolding reconcile_one map_razorpay_payment_status reconcile_event_type find_local heal
  healing env p l t s found ne = rw (s, found, differs l.status ne)

  healed_true :
      (env : Env) (p : RazorpayPayment) (l : Payment) (event : String) (t : Tables Value)
      → (process_webhook_event J env (reconcile_event_id l p) (reconcile_payload J event p) t []).0
        ≡ ok tt
      → ((heal J env p l event t []).0 ≡ ok true)
        × ((heal J env p l event t []).1
            ≡ (process_webhook_event J env
                (reconcile_event_id l p)
                (reconcile_payload J event p)
                t
                []).1)
  unfolding heal
  healed_true env p l event t h = rw (h, continue_cmd) (refl, refl)

  -- A captured payment that is known locally by its id but whose order id is not, and that is not
  -- `succeeded` locally, is counted by reconciliation as healed when no statement fails, while no
  -- payment, subscription, license or device changes.
  pub reconcile_reports_unhealed :
      (env : Env) (p : RazorpayPayment) (order : String) (l : Payment) (t : Tables Value)
      → p.status ≡ "captured"
      → p.order_id ≡ some order
      → with_provider_ref order t.payments ≡ []
      → with_provider_ref p.id t.payments ≡ l ∷ []
      → l.status ≢ PaymentStatus.succeeded
      → ((reconcile_one J env p t []).0 ≡ ok true) × Untouched t (reconcile_one J env p t []).1
  reconcile_reports_unhealed env p order l t captured by_order none_by_order one_by_id ne =
      let found = found_by_id p order l t by_order none_by_order one_by_id in
      let idle = captured_idle env p order t by_order none_by_order in
      let same = healed_true env p l "payment.captured" t (idle_ok env _ _ t idle) in
      rw (healing env p l t captured found ne)
        (same.0, rw same.1 (process_idle J env _ _ t [] (inl (ap (λ r. r.0) idle))))
