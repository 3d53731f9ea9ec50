-- ===== src/Payment/Checkout.antt =====
-- What a checkout leaves in the tables (server/src/service/payment_service.rs,
-- `create_checkout_session`).
use bank_statement_processor.Prelude.{
  ℕ, String, true, none, some, ◌∷◌, ◌≡◌, ◌≢◌, refl, arith, ◌⊎◌, inl, inr,
}
use bank_statement_processor.Domain.Status.{
  PaymentStatus, PlanType, SubscriptionStatus, Parsed, recognized, unrecognized, plan_type_from_str,
}
use bank_statement_processor.Repository.Db.{Result, ok, Tables, Outages, exec}
use bank_statement_processor.Repository.Payments
use bank_statement_processor.Repository.Payments.{new_payment_row}
use bank_statement_processor.Repository.Subscriptions
use bank_statement_processor.Repository.Subscriptions.{new_subscription_row}
use bank_statement_processor.Razorpay.Client.{
  RazorpayError, CreateCheckoutRequest, CreateCheckoutResponse,
}
use bank_statement_processor.Payment.Plans.{plan_amount_minor}
use bank_statement_processor.Payment.Process.{
  Env, CheckoutOutcome, checkout_plan, create_checkout_session, provider_name,
}

-- The tables after a checkout of a plan: one new subscription and one new payment for it.
pub record Opened {V : Type 0} (env : Env) (user_id : ℕ) (plan : PlanType) (provider_ref : String)
    (t t' : Tables V) : Type 0 where
  pub subscriptions :
      t'.subscriptions
      ≡ new_subscription_row
          (record {
            user_id = user_id;
            plan_type = plan;
            status = SubscriptionStatus.pending_payment;
            started_at = env.now;
            current_period_end = none;
            auto_renew = true;
          })
          t.next_id.subscriptions
          env.db_now
        ∷ t.subscriptions
  pub payments :
      t'.payments
      ≡ new_payment_row
          (record {
            subscription_id = t.next_id.subscriptions;
            amount_minor = plan_amount_minor plan;
            currency = "INR";
            provider = provider_name;
            provider_ref = some provider_ref;
            status = PaymentStatus.pending;
          })
          t.next_id.payments
          env.db_now
        ∷ t.payments
  pub licenses : t'.licenses ≡ t.licenses
  pub devices : t'.devices ≡ t.devices

Parsed-cases :
    {A : Type 0} (r : Parsed A)
    → ((a : A) × (r ≡ recognized a)) ⊎ ((s : String) × (r ≡ unrecognized s))
Parsed-cases (recognized a) = inl (a, refl)
Parsed-cases (unrecognized s) = inr (s, refl)

module _ {V : Type 0} where
  checkout_plan-Opened :
      (env : Env) (checkout : CreateCheckoutRequest → Result RazorpayError CreateCheckoutResponse)
      (user_id : ℕ) (plan : PlanType) (t : Tables V) (o : Outages) (outcome : CheckoutOutcome)
      → (checkout_plan env checkout user_id plan t o).0 ≡ ok outcome
      → Opened env user_id plan outcome.provider_ref t
          (checkout_plan env checkout user_id plan t o).1
  unfolding checkout_plan Subscriptions.insert Subscriptions.insert_subscription_row Payments.insert
      Payments.insert_payment_row exec new_subscription_row new_payment_row
  checkout_plan-Opened env checkout user_id plan t o outcome h = ground arith

  checkout_known :
      (env : Env) (checkout : CreateCheckoutRequest → Result RazorpayError CreateCheckoutResponse)
      (user_id : ℕ) (plan_type_str : String) (plan : PlanType)
      → plan_type_from_str plan_type_str ≡ recognized plan
      → create_checkout_session {V = V} env checkout user_id plan_type_str
        ≡ checkout_plan env checkout user_id plan
  unfolding create_checkout_session
  checkout_known env checkout user_id plan_type_str plan e = rw (e, create_checkout_session)

  checkout_unknown :
      (env : Env) (checkout : CreateCheckoutRequest → Result RazorpayError CreateCheckoutResponse)
      (user_id : ℕ) (plan_type_str : String) (t : Tables V) (o : Outages)
      (outcome : CheckoutOutcome) {other : String}
      → plan_type_from_str plan_type_str ≡ unrecognized other
      → (create_checkout_session env checkout user_id plan_type_str t o).0 ≢ ok outcome
  unfolding create_checkout_session
  checkout_unknown env checkout user_id plan_type_str t o outcome e =
      rw (e, create_checkout_session) (λ h. ground arith)

  -- A checkout that succeeds was for one of the known plans, and leaves one new subscription of that
  -- plan for the user, waiting for its payment, and one new payment of that subscription: pending, with
  -- the plan's price in rupees and the reference that the caller got. Licenses and devices stay.
  pub checkout_opens :
      (env : Env) (checkout : CreateCheckoutRequest → Result RazorpayError CreateCheckoutResponse)
      (user_id : ℕ) (plan_type_str : String) (t : Tables V) (o : Outages)
      (outcome : CheckoutOutcome)
      → (create_checkout_session env checkout user_id plan_type_str t o).0 ≡ ok outcome
      → (plan : PlanType) × (plan_type_from_str plan_type_str ≡ recognized plan)
        × Opened env user_id plan outcome.provider_ref t
            (create_checkout_session env checkout user_id plan_type_str t o).1
  checkout_opens env checkout user_id plan_type_str t o outcome h =
      elim (Parsed-cases (plan_type_from_str plan_type_str)) [
        | inr (other, e) ↦
            absurd (checkout_unknown env checkout user_id plan_type_str t o outcome e h)
        | inl (plan, e) ↦
            (let known = checkout_known env checkout user_id plan_type_str plan e in
              let h' = rw known at h in
              (plan, e, rw known (checkout_plan-Opened env checkout user_id plan t o outcome h')))
      ]
