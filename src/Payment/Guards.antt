-- ===== src/Payment/Guards.antt =====
-- When an event that would activate a subscription is refused
-- (server/src/service/payment_service.rs, `resolve_activation` and its callers).
use bank_statement_processor.Prelude.{
  ℕ, String, Option, none, some, [], ◌∷◌, ◌≡◌, ◌≢◌, refl, ◌⊎◌, inl, inr, arith, eq_iff,
}
use bank_statement_processor.Prelude.Int.{ℤ, eq_ℤ_iff}
use bank_statement_processor.Domain.Status.{PaymentStatus}
use bank_statement_processor.Domain.Records.{Payment}
use bank_statement_processor.Repository.Db.{
  Result, ok, err, Result-cases, Tables, Outages, query, exec, continue_cmd,
}
use bank_statement_processor.Repository.Payments
use bank_statement_processor.Repository.Payments.{
  with_provider_ref, single_payment_or_duplicate_error,
}
use bank_statement_processor.Repository.WebhookEvents.{
  WebhookMutation, nothing, insert_claim, apply_mutation, after_claim, claim_body, claim_and_apply,
}
use bank_statement_processor.Razorpay.Webhook.{
  Json, RazorpayWebhookPayload, extract_entity_ref, extract_entity_amount_minor,
  extract_entity_currency,
}
use bank_statement_processor.Payment.Resolve.{
  PaymentOperationError, resolve_activation, resolve_activation_of,
  find_payment_by_provider_ref_or_none, duplicate_as_none, amount_mismatch, currency_mismatch,
  is_refunded_or_disputed, resolve_payment_captured, resolve_payment_link_paid,
  resolve_subscription_active,
}
use bank_statement_processor.Payment.Process.{
  Env, EventKind, event_kind, payment_captured, payment_link_paid, subscription_active,
  resolve_kind, resolve, claim, process_webhook_event,
}

-- Everything but the ledger of events.
pub record Untouched {V : Type 0} (t t' : Tables V) : Type 0 where
  pub payments : t'.payments ≡ t.payments
  pub subscriptions : t'.subscriptions ≡ t.subscriptions
  pub licenses : t'.licenses ≡ t.licenses
  pub devices : t'.devices ≡ t.devices

-- The result decides to do nothing, or is an error.
abbrev pub IsIdle : Result PaymentOperationError WebhookMutation → Type 0
IsIdle r = (r ≡ ok nothing) ⊎ ((x : PaymentOperationError) × (r ≡ err x))

-- The entity whose reference an activating event carries.
abbrev pub activation_entity : EventKind → Option String
activation_entity payment_captured = some "payment"
activation_entity payment_link_paid = some "payment_link"
activation_entity subscription_active = some "subscription"
activation_entity _ = none

-- What speaks against activating for this payment.
abbrev pub IsRefusal : Payment → Option ℤ → Option String → Type 0
IsRefusal payment amount currency =
    ((a : ℤ) × (amount ≡ some a) × (a ≢ payment.amount_minor))
    ⊎ ((c : String) × (currency ≡ some c) × (c ≢ payment.currency))
    ⊎ (payment.status ≡ PaymentStatus.refunded)
    ⊎ (payment.status ≡ PaymentStatus.disputed)

module _ {V : Type 0} where
  resolve_activation_refused :
      (now : ℕ) (key r : String) (g : Option String) (a : Option ℤ) (c : Option String)
      (payment : Payment) (t : Tables V) (o : Outages)
      → with_provider_ref r t.payments ≡ payment ∷ []
      → IsRefusal payment a c
      → IsIdle (resolve_activation now key r g a c t o).0
  unfolding resolve_activation find_payment_by_provider_ref_or_none Payments.find_by_provider_ref
      query single_payment_or_duplicate_error duplicate_as_none amount_mismatch currency_mismatch
      is_refunded_or_disputed
  resolve_activation_refused now key r g a c payment t o found (inl (x, e, ne)) =
      ground (arith, eq_ℤ_iff x payment.amount_minor)
  resolve_activation_refused now key r g a c payment t o found (inr (inl (x, e, ne))) =
      ground (arith, eq_iff x payment.currency)
  resolve_activation_refused now key r g a c payment t o found (inr (inr d)) = ground arith

module _ (J : Json) where
  open J use {Value}

  claim_nothing :
      (env : Env) (id : String) (p : RazorpayWebhookPayload Value) (t : Tables Value) (o : Outages)
      → Untouched t (claim J env id p nothing t o).1
  unfolding claim claim_and_apply claim_body exec insert_claim after_claim apply_mutation
  claim_nothing env id p t o = ground arith

  pub process_idle :
      (env : Env) (id : String) (p : RazorpayWebhookPayload Value) (t : Tables Value) (o : Outages)
      → IsIdle (resolve J env p t o).0
      → Untouched t (process_webhook_event J env id p t o).1
  unfolding process_webhook_event
  process_idle env id p t o (inr (x, k)) =
      rw (k, continue_cmd)
        (record { payments = refl; subscriptions = refl; licenses = refl; devices = refl })
  process_idle env id p t o (inl k) =
      rw (k, continue_cmd)
        (elim (Result-cases (claim J env id p nothing t (resolve J env p t o).1).0) [
          | inr (x, l) ↦ rw (l, continue_cmd) (claim_nothing env id p t (resolve J env p t o).1)
          | inl (c, l) ↦ rw (l, continue_cmd) (claim_nothing env id p t (resolve J env p t o).1)
        ])

  resolve_activation_of_refused :
      (now : ℕ) (fresh key key' r : String) (v : Value) (payment : Payment) (t : Tables Value)
      (o : Outages)
      → some key' ≡ some key
      → extract_entity_ref J v key ≡ some r
      → with_provider_ref r t.payments ≡ payment ∷ []
      → IsRefusal payment
          (extract_entity_amount_minor J v "payment")
          (extract_entity_currency J v "payment")
      → IsIdle (resolve_activation_of J key' now fresh v t o).0
  unfolding resolve_activation_of
  resolve_activation_of_refused now fresh key key' r v payment t o e ref found refusal =
      let same : key' ≡ key = cc in
      rw same (
        rw (ref, resolve_activation_of)
          (resolve_activation_refused now fresh r _ _ _ payment t o found refusal))

  resolve_kind_refused :
      (env : Env) (p : RazorpayWebhookPayload Value) (k : EventKind) (key r : String)
      (payment : Payment) (t : Tables Value) (o : Outages)
      → activation_entity k ≡ some key
      → extract_entity_ref J p.payload key ≡ some r
      → with_provider_ref r t.payments ≡ payment ∷ []
      → IsRefusal payment
          (extract_entity_amount_minor J p.payload "payment")
          (extract_entity_currency J p.payload "payment")
      → IsIdle (resolve_kind J env k p t o).0
  unfolding resolve_kind resolve_payment_captured resolve_payment_link_paid
      resolve_subscription_active
  resolve_kind_refused env p payment_captured key r payment t o e ref found refusal =
      resolve_activation_of_refused env.now env.fresh_key key "payment" r p.payload payment t o e
        ref found refusal
  resolve_kind_refused env p payment_link_paid key r payment t o e ref found refusal =
      resolve_activation_of_refused env.now env.fresh_key key "payment_link" r p.payload payment t o
        e ref found refusal
  resolve_kind_refused env p subscription_active key r payment t o e ref found refusal =
      resolve_activation_of_refused env.now env.fresh_key key "subscription" r p.payload payment t o
        e ref found refusal
  resolve_kind_refused env p _ key r payment t o e ref found refusal = absurd (ground arith)

  -- An event that would activate a subscription, whose reference is that of exactly one local payment,
  -- changes no payment, subscription, license or device if its captured amount or its currency is
  -- present and differs from the stored one, or if the payment was refunded or is disputed; whatever
  -- statements fail.
  pub activation_refused :
      (env : Env) (id : String) (p : RazorpayWebhookPayload Value) (key r : String)
      (payment : Payment) (t : Tables Value) (o : Outages)
      → activation_entity (event_kind p.event) ≡ some key
      → extract_entity_ref J p.payload key ≡ some r
      → with_provider_ref r t.payments ≡ payment ∷ []
      → IsRefusal payment
          (extract_entity_amount_minor J p.payload "payment")
          (extract_entity_currency J p.payload "payment")
      → Untouched t (process_webhook_event J env id p t o).1
  unfolding resolve
  activation_refused env id p key r payment t o e ref found refusal =
      process_idle env id p t o
        (resolve_kind_refused env p (event_kind p.event) key r payment t o e ref found refusal)
