-- ===== src/Tests/Checkouts.antt =====
-- The theorem on checkouts, with a live key and a monthly plan, at a provider that answers every
-- subscription with success.
use bank_statement_processor.Prelude.{String, Bool, true, false, none, some, [], ◌≡◌, ◌⊎◌, refl}
use bank_statement_processor.Prelude.Int.{pos}
use bank_statement_processor.Domain.Status.{PlanType}
use bank_statement_processor.Repository.Db.{Result, ok, err}
use bank_statement_processor.Razorpay.Client.{CreateCheckoutRequest, CreateCheckoutResponse}
use bank_statement_processor.Razorpay.HttpClient.{
  HttpRazorpayClient, Wire, Call, payment_links, subscriptions, payments, CreatedResponse,
  credentials, plan_id_of, plan_id_for, is_test_mode_key, is_one_time, checkout_response, receive,
  subscribe, create_checkout,
}
use bank_statement_processor.Razorpay.Checkout.{ByLink, BySubscription, checkout_calls}

abbrev page : CreatedResponse
page = record { id = "sub_1"; short_url = "https://rzp.io/1" }

-- A response is whether it succeeded.
abbrev wire : Wire
wire = record {
  SendError = Unit;
  Status = Bool;
  Response = Bool;
  is_timeout = λ e. true;
  is_connect = λ e. false;
  error_text = λ e. "timed out";
  status = λ r. r;
  is_success = λ s. s;
  is_server_error = λ s. false;
  status_text = λ s. "400";
  text = λ r. none;
  created = λ r. ok page;
  items = λ r. ok [];
}

abbrev provider : String → String → Call → Result Unit Bool
provider key_id key_secret (subscriptions b) = ok true
provider key_id key_secret (payment_links b) = ok false
provider key_id key_secret (payments q) = err tt

abbrev client : HttpRazorpayClient
client = record {
  key_id = some "rzp_live_1";
  key_secret = some "s";
  monthly_plan_id = some "plan_m";
  yearly_plan_id = none;
  reconciliation_batch_size = 100;
}

abbrev monthly : CreateCheckoutRequest
monthly = record {
  plan_type = PlanType.monthly;
  amount_minor = pos 49900;
  currency = "INR";
  receipt = "sub_42";
}

abbrev opened : CreateCheckoutResponse
opened = record { checkout_url = "https://rzp.io/1"; provider_ref = "sub_1" }

checkout_calls_example :
    (key_id : String) × (key_secret : String) × (client.key_id ≡ some key_id)
    × (client.key_secret ≡ some key_secret)
    × (ByLink wire provider key_id key_secret monthly opened
        ⊎ BySubscription wire provider client key_id key_secret monthly opened)
unfolding create_checkout credentials subscribe plan_id_for plan_id_of is_test_mode_key is_one_time
    receive checkout_response
checkout_calls_example = checkout_calls wire provider client monthly opened refl
