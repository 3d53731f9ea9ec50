-- ===== src/Payment/Refunds.antt =====
-- A refund takes the license away (server/src/service/payment_service.rs, `resolve_refund`;
-- server/src/repository/payment_webhook_event.rs, `apply_mutation`).
use bank_statement_processor.Prelude.{
  ℕ, String, Bool, true, false, ◌&&◌, Option, none, some, List, ◌≡◌, refl, inl, inr, arith, ◌==◌,
  ==_iff, select, any, Option-cases,
}
use bank_statement_processor.Domain.Status.{
  PaymentStatus, LicenseRecordStatus, payment_status_eq, license_status_eq,
}
use bank_statement_processor.Domain.Records.{Payment, License, NewPaymentWebhookEvent}
use bank_statement_processor.Repository.Db.{
  ok, Result-cases, Tables, Outages, query, exec, continue_cmd,
}
use bank_statement_processor.Repository.Sql.{latest_by, column_eq}
use bank_statement_processor.Repository.Rows.{any-update_where, any-latest_by}
use bank_statement_processor.Repository.Payments
use bank_statement_processor.Repository.Licenses
use bank_statement_processor.Repository.Licenses.{set_license_status, is_live_of}
use bank_statement_processor.Repository.WebhookEvents.{
  WebhookMutation, refund_payment, ClaimOutcome, is_claimed, insert_claim, apply_mutation,
  update_affected, after_claim, claim_body, claim_and_apply,
}
use bank_statement_processor.Razorpay.Webhook.{Json, RazorpayWebhookPayload, extract_entity_id}
use bank_statement_processor.Payment.Resolve.{
  resolve_refund, with_payment_and_license, find_payment_and_license, affected,
}
use bank_statement_processor.Payment.Process.{
  Env, event_kind, refund, resolve_kind, resolve, ledger_row, claim, process_webhook_event,
}
use bank_statement_processor.Payment.Delivery.{seen}

-- The rows that a refund leaves.
abbrev pub is_refunded : ℕ → Payment → Bool
is_refunded id p = p.id == id && payment_status_eq p.status PaymentStatus.refunded

abbrev pub is_revoked : ℕ → License → Bool
is_revoked id l = l.id == id && license_status_eq l.status LicenseRecordStatus.revoked

-- The license that stands for a subscription: its latest one that is not revoked.
abbrev pub standing_license : {V : Type 0} → ℕ → Tables V → Option License
standing_license subscription_id t =
    latest_by (λ l. l.issued_at) (select (is_live_of subscription_id) t.licenses)

-- The license, if there is one, is revoked.
abbrev pub IsRevoked : {V : Type 0} → Option License → Tables V → Type 0
IsRevoked none t = Unit
IsRevoked (some l) t = any (is_revoked l.id) t.licenses ≡ true

refunded_after :
    (id : ℕ) (ps : List Payment)
    → any (λ p. p.id == id) ps ≡ true
    → any (is_refunded id) (Payments.set_payment_status id PaymentStatus.refunded ps) ≡ true
unfolding Payments.set_payment_status payment_status_eq
refunded_after id ps h =
    any-update_where (λ p. p.id == id) (λ p. p.id == id) (is_refunded id) _ ps (λ p e. e)
      (λ p e. ground arith) h

revoked_after :
    (id : ℕ) (expires_at : Option ℕ) (ls : List License)
    → any (λ l. l.id == id) ls ≡ true
    → any (is_revoked id) (set_license_status id LicenseRecordStatus.revoked expires_at ls) ≡ true
unfolding set_license_status license_status_eq
revoked_after id expires_at ls h =
    any-update_where (λ l. l.id == id) (λ l. l.id == id) (is_revoked id) _ ls (λ l e. e)
      (λ l e. ground arith) h

module _ {V : Type 0} where
  claim_refunds :
      (now : ℕ) (e : NewPaymentWebhookEvent V) (id : ℕ) (l : Option License) (t : Tables V)
      (o : Outages) {c : ClaimOutcome}
      → is_claimed e.provider e.event_id t ≡ false
      → any (λ p. p.id == id) t.payments ≡ true
      → (elim l [ none ↦ true | some l ↦ any (λ x. x.id == l.id) t.licenses ]) ≡ true
      → (claim_and_apply now e (refund_payment id (affected l)) t o).0 ≡ ok c
      → (any
            (is_refunded id)
            (claim_and_apply now e (refund_payment id (affected l)) t o).1.payments
          ≡ true)
        × IsRevoked l (claim_and_apply now e (refund_payment id (affected l)) t o).1
  unfolding claim_and_apply claim_body exec insert_claim after_claim apply_mutation update_affected
      affected Payments.update_status Licenses.extend
  claim_refunds now e id none t o fresh p b h = ground (arith, refunded_after id t.payments)
  claim_refunds now e id (some l) t o fresh p b h =
      ground (arith, refunded_after id t.payments, revoked_after l.id l.expires_at t.licenses)

  known_refund :
      (g : String) (payment : Payment) (t : Tables V) (o : Outages) (m : WebhookMutation)
      → latest_by (λ p. p.created_at) (select (λ p. column_eq p.gateway_payment_id g) t.payments)
        ≡ some payment
      → (with_payment_and_license g (λ p l. refund_payment p.id l) t o).0 ≡ ok m
      → m ≡ refund_payment payment.id (affected (standing_license payment.subscription_id t))
  unfolding with_payment_and_license find_payment_and_license query
      Payments.find_by_gateway_payment_id Licenses.find_latest_by_subscription
  known_refund g payment t o m found h = ground arith

module _ (J : Json) where
  open J use {Value}

  resolve_refunds :
      (env : Env) (p : RazorpayWebhookPayload Value) (g : String) (payment : Payment)
      (t : Tables Value) (o : Outages) (m : WebhookMutation)
      → event_kind p.event ≡ refund
      → extract_entity_id J p.payload "payment" ≡ some g
      → latest_by (λ p. p.created_at) (select (λ p. column_eq p.gateway_payment_id g) t.payments)
        ≡ some payment
      → (resolve J env p t o).0 ≡ ok m
      → m ≡ refund_payment payment.id (affected (standing_license payment.subscription_id t))
  unfolding resolve resolve_refund resolve_kind
  resolve_refunds env p g payment t o m e id found h =
      let refunding = rw (e, resolve_kind) at h in
      let step = rw (id, resolve_refund) at refunding in known_refund g payment t o m found step

  license_exists :
      (subscription_id : ℕ) (t : Tables Value)
      → (elim (standing_license subscription_id t) [
        | none ↦ true
        | some l ↦ any (λ x. x.id == l.id) t.licenses
      ])
        ≡ true
  license_exists subscription_id t = elim (Option-cases (standing_license subscription_id t)) [
    | inl e ↦ rw e refl
    | inr (l, e) ↦ rw e (
        any-latest_by (λ l. l.issued_at) (is_live_of subscription_id) (λ x. x.id == l.id) t.licenses
          (λ live. ground (arith, ==_iff l.id l.id)) e)
  ]

  claimed_refund :
      (env : Env) (id : String) (p : RazorpayWebhookPayload Value) (g : String) (payment : Payment)
      (t : Tables Value) (o : Outages) (m : WebhookMutation) {c : ClaimOutcome}
      → latest_by (λ p. p.created_at) (select (λ p. column_eq p.gateway_payment_id g) t.payments)
        ≡ some payment
      → m ≡ refund_payment payment.id (affected (standing_license payment.subscription_id t))
      → seen J id t ≡ false
      → (claim J env id p m t o).0 ≡ ok c
      → (any (is_refunded payment.id) (claim J env id p m t o).1.payments ≡ true)
        × IsRevoked (standing_license payment.subscription_id t) (claim J env id p m t o).1
  unfolding claim ledger_row
  claimed_refund env id p g payment t o m {c} found same fresh h =
      let h' = rw same at h in
      rw same (
        claim_refunds env.db_now (ledger_row J id p) payment.id
          (standing_license payment.subscription_id t) t o {c = c} fresh
          (any-latest_by (λ p. p.created_at) (λ p. column_eq p.gateway_payment_id g)
            (λ p. p.id == payment.id) t.payments (λ e. ground (arith, ==_iff payment.id payment.id))
            found)
          (license_exists payment.subscription_id t) (ground arith))

  -- A refund takes effect. If an event of a refund that was not seen before carries the gateway's id of
  -- a local payment, the newest with that id, then after processing without an error there is a
  -- refunded payment of the payment's id, and the license that stood for its subscription, if there was
  -- one, is revoked.
  pub refund_revokes :
      (env : Env) (id : String) (p : RazorpayWebhookPayload Value) (g : String) (payment : Payment)
      (t : Tables Value) (o : Outages)
      → event_kind p.event ≡ refund
      → extract_entity_id J p.payload "payment" ≡ some g
      → latest_by (λ p. p.created_at) (select (λ p. column_eq p.gateway_payment_id g) t.payments)
        ≡ some payment
      → seen J id t ≡ false
      → (process_webhook_event J env id p t o).0 ≡ ok tt
      → (any (is_refunded payment.id) (process_webhook_event J env id p t o).1.payments ≡ true)
        × IsRevoked
            (standing_license payment.subscription_id t)
            (process_webhook_event J env id p t o).1
  unfolding process_webhook_event
  refund_revokes env id p g payment t o e gateway found fresh h =
      elim (Result-cases (resolve J env p t o).0) [
        | inr (x, k) ↦ (let false_claim = rw (k, continue_cmd) at h in absurd (cc))
        | inl (m, k) ↦
            (let step = rw (k, continue_cmd) at h in
              let same = resolve_refunds env p g payment t o m e gateway found k in
              elim (Result-cases (claim J env id p m t (resolve J env p t o).1).0) [
                | inr (x, l) ↦ (let false_claim = rw (l, continue_cmd) at step in absurd (cc))
                | inl (c, l) ↦
                    rw (k, continue_cmd)
                      (rw (l, continue_cmd)
                        (claimed_refund env id p g payment t (resolve J env p t o).1 m {c = c} found
                          same fresh l))
              ])
      ]
