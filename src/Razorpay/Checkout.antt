-- ===== src/Razorpay/Checkout.antt =====
-- Which call a checkout makes, and what its answer comes from (server/src/razorpay/client.rs).
use bank_statement_processor.Prelude.{
  String, Bool, true, false, ◌||◌, some, ◌≡◌, ◌⊎◌, inl, inr, refl, arith, Bool-cases, Option-cases,
}
use text.Mathlib.Text.{starts_with}
use bank_statement_processor.Domain.Status.{PlanType}
use bank_statement_processor.Repository.Db.{Result, ok, err}
use bank_statement_processor.Razorpay.Client.{CreateCheckoutRequest, CreateCheckoutResponse}
use bank_statement_processor.Razorpay.HttpClient.{
  HttpRazorpayClient, Wire, Call, payment_links, subscriptions, CreatedResponse,
  payment_link_request, subscription_request, credentials, plan_id_of, plan_id_for,
  is_test_mode_key, is_one_time, checkout_response, receive, pay_by_link, subscribe,
  create_checkout, link_refusal, subscription_refusal,
}

Result-cases : {E A : Type 0} (x : Result E A) → ((a : A) × (x ≡ ok a)) ⊎ ((e : E) × (x ≡ err e))
Result-cases (ok a) = inl (a, refl)
Result-cases (err e) = inr (e, refl)

one_time_or_test :
    (plan : PlanType) (test : Bool)
    → (is_one_time plan || test) ≡ true
    → (plan ≡ PlanType.lifetime) ⊎ (plan ≡ PlanType.trial) ⊎ (test ≡ true)
unfolding is_one_time
one_time_or_test PlanType.lifetime test e = inl refl
one_time_or_test PlanType.trial test e = inr (inl refl)
one_time_or_test PlanType.monthly test e = inr (inr e)
one_time_or_test PlanType.yearly test e = inr (inr e)

module _ (W : Wire) where
  open W use {SendError, Response, status, is_success, created}

  -- The answer is the provider's, received with success.
  abbrev pub Received : Result SendError Response → CreateCheckoutResponse → Type 0
  Received answer out =
      (r : Response) × (parsed : CreatedResponse) × (answer ≡ ok r)
      × (is_success (status r) ≡ true)
      × (created r ≡ ok parsed)
      × (out.checkout_url ≡ parsed.short_url)
      × (out.provider_ref ≡ parsed.id)

  receive-Received :
      (refusal : Response → String) (answer : Result SendError Response)
      (out : CreateCheckoutResponse)
      → receive W refusal answer ≡ ok out
      → Received answer out
  unfolding receive checkout_response
  receive-Received refusal (err e) out h = absurd (ground arith)
  receive-Received refusal (ok r) out h = elim (Bool-cases (is_success (status r))) [
    | inl e ↦ elim (Result-cases (created r)) [
      | inl (parsed, k) ↦ (r, parsed, refl, e, k, ground arith, ground arith)
      | inr (m, k) ↦ absurd (ground arith)
    ]
    | inr e ↦ absurd (ground arith)
  ]

  module _ (send : String → String → Call → Result SendError Response) where
    -- The plan is paid once, or the key is one for tests; the call asks for the amount, the currency and
    -- the receipt of the request.
    abbrev pub ByLink : String → String → CreateCheckoutRequest → CreateCheckoutResponse → Type 0
    ByLink key_id key_secret req out =
        ((req.plan_type ≡ PlanType.lifetime)
          ⊎ (req.plan_type ≡ PlanType.trial)
          ⊎ (starts_with key_id "rzp_test_" ≡ true))
        × Received
            (send key_id key_secret (
              payment_links (record {
                amount = req.amount_minor;
                currency = req.currency;
                reference_id = req.receipt;
              })))
            out

    -- The key is none for tests, and the plan is monthly or yearly; the call names the plan id that is
    -- configured for it.
    abbrev pub BySubscription :
        HttpRazorpayClient
        → String
        → String
        → CreateCheckoutRequest
        → CreateCheckoutResponse
        → Type 0
    BySubscription c key_id key_secret req out =
        (plan_id : String) × (starts_with key_id "rzp_test_" ≡ false)
        × (((req.plan_type ≡ PlanType.monthly) × (c.monthly_plan_id ≡ some plan_id))
            ⊎ ((req.plan_type ≡ PlanType.yearly) × (c.yearly_plan_id ≡ some plan_id)))
        × Received
            (send key_id key_secret (
              subscriptions (record {
                plan_id = plan_id;
                total_count = 120;
                customer_notify = 1;
                receipt = req.receipt;
              })))
            out

    pay_by_link-ByLink :
        (key_id key_secret : String) (req : CreateCheckoutRequest) (out : CreateCheckoutResponse)
        → (is_one_time req.plan_type || is_test_mode_key key_id) ≡ true
        → pay_by_link W send key_id key_secret req ≡ ok out
        → ByLink key_id key_secret req out
    unfolding pay_by_link payment_link_request is_one_time is_test_mode_key
    pay_by_link-ByLink key_id key_secret req out e h = (
      one_time_or_test req.plan_type (starts_with key_id "rzp_test_") e,
      receive-Received (link_refusal W)
          (send key_id key_secret (payment_links (payment_link_request req))) out h,
    )

    plan_configured :
        (c : HttpRazorpayClient) (plan : PlanType) (plan_id : String)
        → plan_id_of c plan ≡ some plan_id
        → ((plan ≡ PlanType.monthly) × (c.monthly_plan_id ≡ some plan_id))
          ⊎ ((plan ≡ PlanType.yearly) × (c.yearly_plan_id ≡ some plan_id))
    unfolding plan_id_of
    plan_configured c PlanType.monthly plan_id e = inl (refl, e)
    plan_configured c PlanType.yearly plan_id e = inr (refl, e)
    plan_configured c PlanType.trial plan_id e = absurd (ground arith)
    plan_configured c PlanType.lifetime plan_id e = absurd (ground arith)

    no_test_key :
        (one_time : Bool) (key_id : String)
        → (one_time || is_test_mode_key key_id) ≡ false
        → starts_with key_id "rzp_test_" ≡ false
    unfolding is_test_mode_key
    no_test_key true key_id e = absurd (ground arith)
    no_test_key false key_id e = e

    subscribe-BySubscription :
        (c : HttpRazorpayClient) (key_id key_secret : String) (req : CreateCheckoutRequest)
        (out : CreateCheckoutResponse)
        → (is_one_time req.plan_type || is_test_mode_key key_id) ≡ false
        → subscribe W send c key_id key_secret req ≡ ok out
        → BySubscription c key_id key_secret req out
    unfolding subscribe plan_id_for subscription_request
    subscribe-BySubscription c key_id key_secret req out e h =
        elim (Option-cases (plan_id_of c req.plan_type)) [
          | inl k ↦ absurd (ground arith)
          | inr (plan_id, k) ↦ (
            plan_id,
            no_test_key (is_one_time req.plan_type) key_id e,
            plan_configured c req.plan_type plan_id k,
            receive-Received (subscription_refusal W)
                (send key_id key_secret (subscriptions (subscription_request plan_id req))) out
                (ground arith),
          )
        ]

    -- A checkout that succeeds used the configured credentials. Either the plan is paid once or the key
    -- is one for tests, and it went by a payment link of the asked amount, currency and receipt; or the
    -- key is none for tests and it went by a subscription with the receipt, of 120 cycles, to the id
    -- that is configured as the monthly plan for a monthly one and as the yearly plan for a yearly one.
    -- The address returned is the short address, and the reference the id, of the provider's successful
    -- answer to this call.
    pub checkout_calls :
        (c : HttpRazorpayClient) (req : CreateCheckoutRequest) (out : CreateCheckoutResponse)
        → create_checkout W send c req ≡ ok out
        → (key_id : String) × (key_secret : String) × (c.key_id ≡ some key_id)
          × (c.key_secret ≡ some key_secret)
          × (ByLink key_id key_secret req out ⊎ BySubscription c key_id key_secret req out)
    unfolding create_checkout credentials
    checkout_calls c req out h = elim (Option-cases c.key_id) [
      | inl e ↦ absurd (ground arith)
      | inr (i, e) ↦ elim (Option-cases c.key_secret) [
        | inl k ↦ absurd (ground arith)
        | inr (s, k) ↦ elim (Bool-cases (is_one_time req.plan_type || is_test_mode_key i)) [
          | inl b ↦ (i, s, e, k, inl (pay_by_link-ByLink i s req out b (ground arith)))
          | inr b ↦ (i, s, e, k, inr (subscribe-BySubscription c i s req out b (ground arith)))
        ]
      ]
    ]
