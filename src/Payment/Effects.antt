-- ===== src/Payment/Effects.antt =====
-- What the mutation of an activation leaves in the tables
-- (server/src/repository/payment_webhook_event.rs, `apply_mutation`).
use bank_statement_processor.Prelude.{
  ℕ, String, Bool, true, false, ◌&&◌, Option, none, some, List, ◌∷◌, ◌≡◌, refl, arith, ◌==◌, ==_iff,
  any,
}
use bank_statement_processor.Domain.Status.{
  PaymentStatus, SubscriptionStatus, LicenseRecordStatus, payment_status_eq, license_status_eq,
}
use bank_statement_processor.Domain.Records.{NewPaymentWebhookEvent, Payment, Subscription, License}
use bank_statement_processor.Repository.Db.{ok, Tables, Outages, exec, later}
use bank_statement_processor.Repository.Rows.{any-update_where}
use bank_statement_processor.Repository.Subscriptions.{set_subscription_status}
use bank_statement_processor.Repository.Subscriptions
use bank_statement_processor.Repository.Licenses
use bank_statement_processor.Repository.Licenses.{set_license_status, is_live_of}
use bank_statement_processor.Repository.WebhookEvents.{
  activate_subscription_and_license, LicenseMutation, ClaimOutcome, is_claimed, insert_claim,
  apply_mutation, apply_license, after_claim, claim_body, claim_and_apply, succeed_payment,
}

-- The rows that a paid purchase leaves.
abbrev pub is_paid : ℕ → Payment → Bool
is_paid id p = p.id == id && payment_status_eq p.status PaymentStatus.succeeded

abbrev pub same_time : Option ℕ → Option ℕ → Bool
same_time none none = true
same_time (some a) (some b) = a == b
same_time _ _ = false

abbrev pub subscription_is_active : SubscriptionStatus → Bool
subscription_is_active SubscriptionStatus.active = true
subscription_is_active _ = false

abbrev pub is_running : ℕ → Option ℕ → Subscription → Bool
is_running id until s =
    s.id == id && subscription_is_active s.status && same_time s.current_period_end until

abbrev pub is_licensed : ℕ → Option ℕ → License → Bool
is_licensed subscription_id until l =
    l.subscription_id == subscription_id
    && license_status_eq l.status LicenseRecordStatus.active
    && same_time l.expires_at until

same_time_refl : (a : Option ℕ) → same_time a a ≡ true
same_time_refl none = refl
same_time_refl (some n) = ground (arith, ==_iff n n)

-- The row of this id passes the test after the update that sets it.
paid_after :
    (id : ℕ) (g : Option String) (ps : List Payment)
    → any (λ p. p.id == id) ps ≡ true
    → any (is_paid id) (succeed_payment id g ps) ≡ true
unfolding succeed_payment payment_status_eq
paid_after id g ps h =
    any-update_where (λ p. p.id == id) (λ p. p.id == id) (is_paid id) _ ps (λ p e. e)
      (λ p e. ground arith) h

running_after :
    (id : ℕ) (until : Option ℕ) (now : ℕ) (ss : List Subscription)
    → any (λ s. s.id == id) ss ≡ true
    → any (is_running id until) (set_subscription_status id SubscriptionStatus.active until now ss)
      ≡ true
unfolding set_subscription_status
running_after id until now ss h =
    any-update_where (λ s. s.id == id) (λ s. s.id == id) (is_running id until) _ ss (λ s e. e)
      (λ s e. ground (arith, same_time_refl until)) h

licensed_after :
    (id subscription_id : ℕ) (until : Option ℕ) (ls : List License)
    → any (λ l. l.id == id && l.subscription_id == subscription_id) ls ≡ true
    → any
        (is_licensed subscription_id until)
        (set_license_status id LicenseRecordStatus.active until ls)
      ≡ true
unfolding set_license_status license_status_eq
licensed_after id subscription_id until ls h =
    any-update_where (λ l. l.id == id && l.subscription_id == subscription_id) (λ l. l.id == id)
      (is_licensed subscription_id until) _ ls (λ l e. ground arith)
      (λ l e. ground (arith, same_time_refl until)) h

-- A license to extend belongs to the subscription.
abbrev pub BelongsTo : ℕ → LicenseMutation → List License → Type 0
BelongsTo subscription_id (LicenseMutation.extend id) ls =
    any (λ l. l.id == id && l.subscription_id == subscription_id) ls ≡ true
BelongsTo subscription_id (LicenseMutation.insert key max_devices grace) ls = Unit

-- The tables after an activation.
pub record Activated {V : Type 0} (payment_id subscription_id : ℕ) (until : Option ℕ) (t : Tables V)
    : Type 0 where
  pub paid : any (is_paid payment_id) t.payments ≡ true
  pub running : any (is_running subscription_id until) t.subscriptions ≡ true
  pub licensed : any (is_licensed subscription_id until) t.licenses ≡ true

module _ {V : Type 0} where
  license_applied :
      (now subscription_id : ℕ) (until : Option ℕ) (m : LicenseMutation) (t : Tables V)
      (o : Outages)
      → BelongsTo subscription_id m t.licenses
      → (apply_license subscription_id until now m t o).0 ≡ ok tt
      → (any
            (is_licensed subscription_id until)
            (apply_license subscription_id until now m t o).1.licenses
          ≡ true)
        × ((apply_license subscription_id until now m t o).1.payments ≡ t.payments)
        × ((apply_license subscription_id until now m t o).1.subscriptions ≡ t.subscriptions)
  unfolding apply_license Licenses.extend Licenses.insert Licenses.insert_license_row
      Licenses.new_license_row exec any license_status_eq
  license_applied now subscription_id until (LicenseMutation.extend id) t o b h =
      ground (arith, licensed_after id subscription_id until t.licenses)
  license_applied now subscription_id until (LicenseMutation.insert key max_devices grace) t o b h =
      ground (arith, same_time_refl until, ==_iff subscription_id subscription_id)

  mutation_activates :
      (now payment_id subscription_id : ℕ) (until : Option ℕ) (m : LicenseMutation)
      (g : Option String) (t : Tables V) (o : Outages)
      → any (λ p. p.id == payment_id) t.payments ≡ true
      → any (λ s. s.id == subscription_id) t.subscriptions ≡ true
      → BelongsTo subscription_id m t.licenses
      → (apply_mutation now
          (activate_subscription_and_license payment_id subscription_id until m g)
          t
          o).0
        ≡ ok tt
      → Activated payment_id subscription_id until
          (apply_mutation now
            (activate_subscription_and_license payment_id subscription_id until m g)
            t
            o).1
  unfolding apply_mutation exec Subscriptions.update_status
  mutation_activates now payment_id subscription_id until m g t o p s b h =
      let t1 : Tables V = record t { payments = succeed_payment payment_id g t.payments } in
      let t2 : Tables V = record t1 {
        subscriptions =
            set_subscription_status subscription_id SubscriptionStatus.active until now
              t.subscriptions;
      } in
      ground (
        arith,
        license_applied now subscription_id until m t2 (later (later o)),
        paid_after payment_id g t.payments p,
        running_after subscription_id until now t.subscriptions s,
      )

  pub claim_activates :
      (now : ℕ) (e : NewPaymentWebhookEvent V) (payment_id subscription_id : ℕ) (until : Option ℕ)
      (m : LicenseMutation) (g : Option String) (t : Tables V) (o : Outages) {c : ClaimOutcome}
      → is_claimed e.provider e.event_id t ≡ false
      → any (λ p. p.id == payment_id) t.payments ≡ true
      → any (λ s. s.id == subscription_id) t.subscriptions ≡ true
      → BelongsTo subscription_id m t.licenses
      → (claim_and_apply now e
          (activate_subscription_and_license payment_id subscription_id until m g)
          t
          o).0
        ≡ ok c
      → Activated payment_id subscription_id until
          (claim_and_apply now e
            (activate_subscription_and_license payment_id subscription_id until m g)
            t
            o).1
  unfolding claim_and_apply claim_body exec insert_claim after_claim
  claim_activates now e payment_id subscription_id until m g t o fresh p s b h =
      let t1 : Tables V = record t { payment_webhook_events = e ∷ t.payment_webhook_events } in
      ground (
        arith,
        mutation_activates now payment_id subscription_id until m g t1 (later (later o)) p s b,
      )
