-- ===== src/Http/Webhook.antt =====
-- The webhook endpoint (server/src/routes/payment.rs, `webhook`).
use bank_statement_processor.Prelude.{ℕ, String, Option, none, some, List, if◌then◌else◌}
use bank_statement_processor.Repository.Db.{Result, ok, err, Cmd, return, reads}
use bank_statement_processor.Razorpay.Webhook.{Json, RazorpayWebhookPayload}
use bank_statement_processor.Payment.Resolve.{PaymentOperationError}
use bank_statement_processor.Payment.Process.{Env, process_webhook_event}
use bank_statement_processor.Http.Error.{
  ApiError, invalid_request, unauthorized, Texts, from_payment,
}
use bank_statement_processor.Http.Signature.{verify_webhook_signature}

-- A call: the two headers as far as they are visible ASCII, and the raw body.
pub record WebhookCall (Body : Type 0) : Type 0 where
  pub signature : Option (List ℕ)
  pub event_id : Option String
  pub body : Body

-- What the endpoint takes from its libraries: HMAC-SHA256, serde_json on the body, the body as text
-- (`from_utf8_lossy`), the SHA-256 of a text in hexadecimal, and the texts of errors.
pub record Host (Body Value : Type 0) : Type 0 where
  pub mac : String → Body → Option (List ℕ)
  pub parse : Body → Result String (RazorpayWebhookPayload Value)
  pub lossy : Body → String
  pub hash_token : String → String
  pub texts : Texts

module _ (J : Json) {Body : Type 0} (host : Host Body J.Value) where
  open J use {Value}
  open host use {mac, parse, lossy, hash_token, texts}

  unfoldable pub resolve_event_id : WebhookCall Body → String
  resolve_event_id call = elim call.event_id [ some id ↦ id | none ↦ hash_token (lossy call.body) ]

  abbrev pub give : {A : Type 0} → Result ApiError A → Cmd Value ApiError A
  give r = reads (return r)

  abbrev pub answer : {A : Type 0} → Result PaymentOperationError A → Result ApiError A
  answer (ok a) = ok a
  answer (err e) = err (from_payment texts e)

  unfoldable pub process :
      Env
      → WebhookCall Body
      → Result String (RazorpayWebhookPayload Value)
      → Cmd Value ApiError Unit
  process env call (err e) t o = (err (invalid_request e), t, o)
  process env call (ok payload) t o =
      let (r, t', o') = process_webhook_event J env (resolve_event_id call) payload t o in
      (answer r, t', o')

  unfoldable pub check_secret :
      Env → WebhookCall Body → List ℕ → Option String → Cmd Value ApiError Unit
  check_secret env call signature none = give (err unauthorized)
  check_secret env call signature (some secret) =
      if verify_webhook_signature mac secret call.body signature
      then process env call (parse call.body)
      else give (err unauthorized)

  unfoldable pub check_signature :
      Option String → Env → WebhookCall Body → Option (List ℕ) → Cmd Value ApiError Unit
  check_signature secret env call none = give (err unauthorized)
  check_signature secret env call (some signature) = check_secret env call signature secret

  -- `secret` is the configured `razorpay_webhook_secret`.
  unfoldable pub webhook : Option String → Env → WebhookCall Body → Cmd Value ApiError Unit
  webhook secret env call = check_signature secret env call call.signature
