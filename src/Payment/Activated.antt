-- ===== src/Payment/Activated.antt =====
-- An event for a payment that is due activates its subscription
-- (server/src/service/payment_service.rs, `resolve_activation`).
use bank_statement_processor.Prelude.{
  Option-cases, ℕ, String, true, false, ◌&&◌, Option, some, [], ◌∷◌, ◌≡◌, inl, inr, arith, ◌==◌,
  ==_iff, find, select, any,
}
use bank_statement_processor.Prelude.Int.{ℤ}
use bank_statement_processor.Domain.Records.{Payment, Subscription}
use bank_statement_processor.Repository.Db.{ok, Result-cases, Tables, Outages, query, continue_cmd}
use bank_statement_processor.Repository.Sql.{latest_by, column_eq}
use bank_statement_processor.Repository.Rows.{any-find, any-select, any-latest_by}
use bank_statement_processor.Repository.Payments
use bank_statement_processor.Repository.Payments.{
  with_provider_ref, single_payment_or_duplicate_error,
}
use bank_statement_processor.Payment.Plans.{period_end_from}
use bank_statement_processor.Razorpay.Webhook.{
  Json, RazorpayWebhookPayload, extract_entity_ref, extract_entity_id, extract_entity_amount_minor,
  extract_entity_currency,
}
use bank_statement_processor.Payment.Process.{
  Env, EventKind, event_kind, payment_captured, payment_link_paid, subscription_active,
  resolve_kind, resolve, ledger_row, claim, process_webhook_event,
}
use bank_statement_processor.Payment.Guards.{activation_entity}
use bank_statement_processor.Payment.Delivery.{seen}
use bank_statement_processor.Payment.Resolve.{
  resolve_activation_of, resolve_payment_captured, resolve_payment_link_paid,
  resolve_subscription_active, resolve_activation, activation_of,
  find_payment_by_provider_ref_or_none, duplicate_as_none, amount_mismatch, currency_mismatch,
  is_refunded_or_disputed, license_mutation,
}
use bank_statement_processor.Repository.Subscriptions.{set_subscription_status}
use bank_statement_processor.Repository.Subscriptions
use bank_statement_processor.Repository.Licenses
use bank_statement_processor.Repository.Licenses.{set_license_status, is_live_of}
use bank_statement_processor.Repository.WebhookEvents.{
  WebhookMutation, activate_subscription_and_license, ClaimOutcome,
}
use bank_statement_processor.Payment.Effects.{BelongsTo, Activated, claim_activates}

module _ {V : Type 0} where
  -- The mutation that an accepted activation is resolved to.
  abbrev pub accepted :
      ℕ → String → Payment → Subscription → Option String → Tables V → WebhookMutation
  accepted now key payment s g t =
      activate_subscription_and_license payment.id s.id (period_end_from now s.plan_type)
        (license_mutation key (latest_by (λ l. l.issued_at) (select (is_live_of s.id) t.licenses)))
        g

  resolve_accepted :
      (now : ℕ) (key r : String) (g : Option String) (a : Option ℤ) (c : Option String)
      (payment : Payment) (s : Subscription) (t : Tables V) (o : Outages) (m : WebhookMutation)
      → with_provider_ref r t.payments ≡ payment ∷ []
      → amount_mismatch a payment ≡ false
      → currency_mismatch c payment ≡ false
      → is_refunded_or_disputed payment.status ≡ false
      → find (λ s. s.id == payment.subscription_id) t.subscriptions ≡ some s
      → (resolve_activation now key r g a c t o).0 ≡ ok m
      → m ≡ accepted now key payment s g t
  unfolding resolve_activation activation_of find_payment_by_provider_ref_or_none
      Payments.find_by_provider_ref Subscriptions.find_by_id Licenses.find_latest_by_subscription
      query single_payment_or_duplicate_error duplicate_as_none
  resolve_accepted now key r g a c payment s t o m found am cm st sub h = ground arith

  accepted-BelongsTo :
      (key : String) (id : ℕ) (t : Tables V)
      → BelongsTo id
          (license_mutation key (latest_by (λ l. l.issued_at) (select (is_live_of id) t.licenses)))
          t.licenses
  unfolding license_mutation is_live_of
  accepted-BelongsTo key id t =
      elim (Option-cases (latest_by (λ l. l.issued_at) (select (is_live_of id) t.licenses))) [
        | inl e ↦ rw e tt
        | inr (l, e) ↦ rw e (
            any-latest_by (λ l. l.issued_at) (is_live_of id)
              (λ x. x.id == l.id && x.subscription_id == id) t.licenses
              (λ live. ground (arith, ==_iff l.id l.id)) e)
      ]

module _ (J : Json) where
  open J use {Value}

  activation_for :
      (now : ℕ) (fresh key key' r : String) (v : Value)
      → some key' ≡ some key
      → extract_entity_ref J v key ≡ some r
      → resolve_activation_of J key' now fresh v
        ≡ resolve_activation now fresh r
            (extract_entity_id J v "payment")
            (extract_entity_amount_minor J v "payment")
            (extract_entity_currency J v "payment")
  unfolding resolve_activation_of
  activation_for now fresh key key' r v e ref =
      let same : key' ≡ key = cc in rw same (rw (ref, resolve_activation_of))

  resolve_activating :
      (env : Env) (p : RazorpayWebhookPayload Value) (k : EventKind) (key r : String)
      → activation_entity k ≡ some key
      → extract_entity_ref J p.payload key ≡ some r
      → resolve_kind J env k p
        ≡ resolve_activation env.now env.fresh_key r
            (extract_entity_id J p.payload "payment")
            (extract_entity_amount_minor J p.payload "payment")
            (extract_entity_currency J p.payload "payment")
  unfolding resolve_kind resolve_payment_captured resolve_payment_link_paid
      resolve_subscription_active
  resolve_activating env p payment_captured key r e ref =
      activation_for env.now env.fresh_key key "payment" r p.payload e ref
  resolve_activating env p payment_link_paid key r e ref =
      activation_for env.now env.fresh_key key "payment_link" r p.payload e ref
  resolve_activating env p subscription_active key r e ref =
      activation_for env.now env.fresh_key key "subscription" r p.payload e ref
  resolve_activating env p _ key r e ref = absurd (ground arith)

  claimed_activation :
      (env : Env) (id : String) (p : RazorpayWebhookPayload Value) (payment : Payment)
      (s : Subscription) (g : Option String) (t : Tables Value) (o : Outages) {c : ClaimOutcome}
      → seen J id t ≡ false
      → any (λ q. q.id == payment.id) t.payments ≡ true
      → any (λ q. q.id == s.id) t.subscriptions ≡ true
      → (claim J env id p (accepted env.now env.fresh_key payment s g t) t o).0 ≡ ok c
      → Activated payment.id s.id
          (period_end_from env.now s.plan_type)
          (claim J env id p (accepted env.now env.fresh_key payment s g t) t o).1
  unfolding claim ledger_row
  claimed_activation env id p payment s g t o {c} fresh paid running h =
      claim_activates env.db_now (ledger_row J id p) payment.id s.id
        (period_end_from env.now s.plan_type) _ g t o {c = c} fresh paid running
        (accepted-BelongsTo env.fresh_key s.id t) (ground arith)

  -- The payment that an event is for, its subscription, and that nothing speaks against activating.
  record IsDue (p : RazorpayWebhookPayload Value) (payment : Payment) (s : Subscription)
      (t : Tables Value) : Type 0 where
    key : String
    ref : String
    activating : activation_entity (event_kind p.event) ≡ some key
    refers : extract_entity_ref J p.payload key ≡ some ref
    found : with_provider_ref ref t.payments ≡ payment ∷ []
    amount : amount_mismatch (extract_entity_amount_minor J p.payload "payment") payment ≡ false
    currency : currency_mismatch (extract_entity_currency J p.payload "payment") payment ≡ false
    standing : is_refunded_or_disputed payment.status ≡ false
    subscription : find (λ s. s.id == payment.subscription_id) t.subscriptions ≡ some s

  resolve_due :
      (env : Env) (p : RazorpayWebhookPayload Value) (payment : Payment) (s : Subscription)
      (t : Tables Value) (o : Outages) (m : WebhookMutation)
      → IsDue p payment s t
      → (resolve J env p t o).0 ≡ ok m
      → m ≡ accepted env.now env.fresh_key payment s (extract_entity_id J p.payload "payment") t
  unfolding resolve
  resolve_due env p payment s t o m d h =
      let h' =
        rw (resolve_activating env p (event_kind p.event) d.key d.ref d.activating d.refers) at h in
      resolve_accepted env.now env.fresh_key d.ref _ _ _ payment s t o m d.found d.amount d.currency
        d.standing d.subscription h'

  due_claimed :
      (env : Env) (id : String) (p : RazorpayWebhookPayload Value) (payment : Payment)
      (s : Subscription) (t : Tables Value) (o : Outages) (m : WebhookMutation) {c : ClaimOutcome}
      → IsDue p payment s t
      → seen J id t ≡ false
      → (resolve J env p t o).0 ≡ ok m
      → (claim J env id p m t (resolve J env p t o).1).0 ≡ ok c
      → Activated payment.id s.id
          (period_end_from env.now s.plan_type)
          (claim J env id p m t (resolve J env p t o).1).1
  unfolding with_provider_ref
  due_claimed env id p payment s t o m {c} d fresh k l =
      let same = resolve_due env p payment s t o m d k in
      let l' = rw same at l in
      rw same (
        claimed_activation env id p payment s (extract_entity_id J p.payload "payment") t
          (resolve J env p t o).1 {c = c} fresh
          (any-select (λ q. column_eq q.provider_ref d.ref) (λ q. q.id == payment.id) t.payments
            (λ e. ground (arith, ==_iff payment.id payment.id)) d.found)
          (any-find (λ q. q.id == payment.subscription_id) (λ q. q.id == s.id) t.subscriptions
            (λ e. ground (arith, ==_iff s.id s.id)) d.subscription)
          l')

  due_activates :
      (env : Env) (id : String) (p : RazorpayWebhookPayload Value) (payment : Payment)
      (s : Subscription) (t : Tables Value) (o : Outages)
      → IsDue p payment s t
      → seen J id t ≡ false
      → (process_webhook_event J env id p t o).0 ≡ ok tt
      → Activated payment.id s.id
          (period_end_from env.now s.plan_type)
          (process_webhook_event J env id p t o).1
  unfolding process_webhook_event
  due_activates env id p payment s t o d fresh h = elim (Result-cases (resolve J env p t o).0) [
    | inr (x, k) ↦ (let false_claim = rw (k, continue_cmd) at h in absurd (cc))
    | inl (m, k) ↦
        (let step = rw (k, continue_cmd) at h in
          elim (Result-cases (claim J env id p m t (resolve J env p t o).1).0) [
            | inr (x, l) ↦ (let false_claim = rw (l, continue_cmd) at step in absurd (cc))
            | inl (c, l) ↦
                rw (k, continue_cmd)
                  (rw (l, continue_cmd) (due_claimed env id p payment s t o m d fresh k l))
          ])
  ]

  -- A payment that is due activates. If an event that was not seen before names exactly one local
  -- payment, its amount and currency (where present) are the stored ones, the payment is neither
  -- refunded nor disputed and its subscription exists, then after processing without an error there
  -- are a succeeded payment of that id, an active subscription of that id running to the end of the
  -- plan's period from now, and an active license of that subscription that expires then.
  pub payment_activates :
      (env : Env) (id : String) (p : RazorpayWebhookPayload Value) (key r : String)
      (payment : Payment) (s : Subscription) (t : Tables Value) (o : Outages)
      → activation_entity (event_kind p.event) ≡ some key
      → extract_entity_ref J p.payload key ≡ some r
      → with_provider_ref r t.payments ≡ payment ∷ []
      → amount_mismatch (extract_entity_amount_minor J p.payload "payment") payment ≡ false
      → currency_mismatch (extract_entity_currency J p.payload "payment") payment ≡ false
      → is_refunded_or_disputed payment.status ≡ false
      → find (λ s. s.id == payment.subscription_id) t.subscriptions ≡ some s
      → seen J id t ≡ false
      → (process_webhook_event J env id p t o).0 ≡ ok tt
      → Activated payment.id s.id
          (period_end_from env.now s.plan_type)
          (process_webhook_event J env id p t o).1
  payment_activates env id p key r payment s t o e ref found amount currency standing sub =
      due_activates env id p payment s t o (record {
        key = key;
        ref = r;
        activating = e;
        refers = ref;
        found = found;
        amount = amount;
        currency = currency;
        standing = standing;
        subscription = sub;
      })
