-- ===== src/Razorpay/HttpClient.antt =====
-- The client of the payment provider (server/src/razorpay/client.rs). `send` is the HTTP library: what
-- comes of one call with the credentials. Instants are in microseconds.
use bank_statement_processor.Prelude.{
  ℕ, ◌/◌, String, Bool, true, false, not, ◌||◌, Option, none, some, List, if◌then◌else◌,
}
use Prim.Native.String.{◌++◌}
use text.Mathlib.Text.{starts_with}
use bank_statement_processor.Prelude.Int.{ℤ}
use bank_statement_processor.Domain.Status.{PlanType, plan_type_as_str}
use bank_statement_processor.Repository.Db.{Result, ok, err}
use bank_statement_processor.Razorpay.Client.{
  RazorpayError, not_configured, http, transient, permanent, CreateCheckoutRequest,
  CreateCheckoutResponse, RazorpayPayment,
}

pub record HttpRazorpayClient : Type 0 where
  pub key_id : Option String
  pub key_secret : Option String
  pub monthly_plan_id : Option String
  pub yearly_plan_id : Option String
  pub reconciliation_batch_size : ℕ

pub record CreatePaymentLinkRequest : Type 0 where
  pub amount : ℤ
  pub currency : String
  pub reference_id : String

-- `receipt` is the only member of the source's `notes`.
pub record CreateSubscriptionRequest : Type 0 where
  pub plan_id : String
  pub total_count : ℕ
  pub customer_notify : ℕ
  pub receipt : String

-- The answer to either request.
pub record CreatedResponse : Type 0 where
  pub id : String
  pub short_url : String

pub record PaymentsQuery : Type 0 where
  pub since : ℕ
  pub count : ℕ

-- The calls of the client, by their paths.
pub data Call : Type 0 where
  payment_links : CreatePaymentLinkRequest → Call
  subscriptions : CreateSubscriptionRequest → Call
  payments : PaymentsQuery → Call

-- What the client asks of the HTTP library (reqwest): failures to send, and answers. `created` and
-- `items` read the body as JSON, or give the text of the failure.
pub record Wire : Type 1 where
  pub SendError : Type 0
  pub Status : Type 0
  pub Response : Type 0
  pub is_timeout : SendError → Bool
  pub is_connect : SendError → Bool
  pub error_text : SendError → String
  pub status : Response → Status
  pub is_success : Status → Bool
  pub is_server_error : Status → Bool
  pub status_text : Status → String
  pub text : Response → Option String
  pub created : Response → Result String CreatedResponse
  pub items : Response → Result String (List RazorpayPayment)

abbrev pub or_not_configured : {A : Type 0} → Option A → String → Result RazorpayError A
or_not_configured none m = err (not_configured m)
or_not_configured (some a) m = ok a

-- `?` after an operation of this client.
abbrev pub and_then : {E A B : Type 0} → Result E A → (A → Result E B) → Result E B
and_then (ok a) f = f a
and_then (err e) f = err e

unfoldable pub credentials : HttpRazorpayClient → Result RazorpayError (String × String)
credentials c = and_then (or_not_configured c.key_id "RAZORPAY_KEY_ID is not set") (λ key_id.
    and_then (or_not_configured c.key_secret "RAZORPAY_KEY_SECRET is not set")
      (λ key_secret. ok (key_id, key_secret)))

unfoldable pub plan_id_of : HttpRazorpayClient → PlanType → Option String
plan_id_of c PlanType.monthly = c.monthly_plan_id
plan_id_of c PlanType.yearly = c.yearly_plan_id
plan_id_of c PlanType.trial = none
plan_id_of c PlanType.lifetime = none

unfoldable pub plan_id_for : HttpRazorpayClient → PlanType → Result RazorpayError String
plan_id_for c plan_type =
    or_not_configured (plan_id_of c plan_type)
      ("no Razorpay plan id configured for " ++ plan_type_as_str plan_type)

unfoldable pub is_test_mode_key : String → Bool
is_test_mode_key key_id = starts_with key_id "rzp_test_"

unfoldable pub is_one_time : PlanType → Bool
is_one_time PlanType.lifetime = true
is_one_time PlanType.trial = true
is_one_time PlanType.monthly = false
is_one_time PlanType.yearly = false

unfoldable pub is_recoverable : RazorpayError → Bool
is_recoverable (permanent m) = false
is_recoverable (not_configured m) = true
is_recoverable (http m) = true
is_recoverable (transient m) = true

abbrev pub or_default : Option String → String
or_default none = ""
or_default (some s) = s

abbrev pub as_http : {A : Type 0} → Result String A → Result RazorpayError A
as_http (ok a) = ok a
as_http (err m) = err (http m)

abbrev pub as_permanent : {A : Type 0} → Result String A → Result RazorpayError A
as_permanent (ok a) = ok a
as_permanent (err m) = err (permanent m)

unfoldable pub payment_link_request : CreateCheckoutRequest → CreatePaymentLinkRequest
payment_link_request req = record {
  amount = req.amount_minor;
  currency = req.currency;
  reference_id = req.receipt;
}

unfoldable pub subscription_request : String → CreateCheckoutRequest → CreateSubscriptionRequest
subscription_request plan_id req = record {
  plan_id = plan_id;
  total_count = 120;
  customer_notify = 1;
  receipt = req.receipt;
}

unfoldable pub checkout_response : CreatedResponse → CreateCheckoutResponse
checkout_response parsed = record { checkout_url = parsed.short_url; provider_ref = parsed.id }

unfoldable pub list_payments_query_params : ℕ → ℕ → PaymentsQuery
list_payments_query_params since batch_size = record { since = since / 1000000; count = batch_size }

module _ (W : Wire) where
  open W use {
    SendError, Status, Response, is_timeout, is_connect, error_text, status, is_success,
    is_server_error, status_text, text, created, items,
  }

  unfoldable pub classify_send_error : SendError → RazorpayError
  classify_send_error e =
      if is_timeout e || is_connect e then transient (error_text e) else permanent (error_text e)

  unfoldable pub classify_status_error : Status → RazorpayError
  classify_status_error s =
      let msg = "payments list returned " ++ status_text s in
      if is_server_error s then transient msg else permanent msg

  abbrev pub sent : Result SendError Response → Result RazorpayError Response
  sent (ok r) = ok r
  sent (err e) = err (http (error_text e))

  abbrev pub listed : Result SendError Response → Result RazorpayError Response
  listed (ok r) = ok r
  listed (err e) = err (classify_send_error e)

  -- The texts for a status that is no success.
  unfoldable pub link_refusal : Response → String
  link_refusal r =
      "payment_links returned " ++ status_text (status r) ++ ": " ++ or_default (text r)

  unfoldable pub subscription_refusal : Response → String
  subscription_refusal r = "subscriptions returned " ++ status_text (status r)

  -- The answer of a request that creates something; `refusal` is the text for a status of no success.
  unfoldable pub receive :
      (Response → String) → Result SendError Response → Result RazorpayError CreateCheckoutResponse
  receive refusal answer = and_then (sent answer) (λ response.
      if not (is_success (status response))
      then err (http (refusal response))
      else and_then (as_http (created response)) (λ parsed. ok (checkout_response parsed)))

  module _ (send : String → String → Call → Result SendError Response) where
    unfoldable pub pay_by_link :
        String → String → CreateCheckoutRequest → Result RazorpayError CreateCheckoutResponse
    pay_by_link key_id key_secret req =
        receive link_refusal (send key_id key_secret (payment_links (payment_link_request req)))

    unfoldable pub subscribe :
        HttpRazorpayClient
        → String
        → String
        → CreateCheckoutRequest
        → Result RazorpayError CreateCheckoutResponse
    subscribe c key_id key_secret req = and_then (plan_id_for c req.plan_type) (λ plan_id.
        receive subscription_refusal
          (send key_id key_secret (subscriptions (subscription_request plan_id req))))

    unfoldable pub create_checkout :
        HttpRazorpayClient → CreateCheckoutRequest → Result RazorpayError CreateCheckoutResponse
    create_checkout c req = and_then (credentials c) (λ (key_id, key_secret).
        if is_one_time req.plan_type || is_test_mode_key key_id
        then pay_by_link key_id key_secret req
        else subscribe c key_id key_secret req)

    unfoldable pub list_payments_since :
        HttpRazorpayClient → ℕ → Result RazorpayError (List RazorpayPayment)
    list_payments_since c since = and_then (credentials c) (λ (key_id, key_secret).
        and_then
          (listed (
            send key_id key_secret
              (payments (list_payments_query_params since c.reconciliation_batch_size))))
          (λ response.
            if not (is_success (status response))
            then err (classify_status_error (status response))
            else as_permanent (items response)))
