-- ===== src/Http/Trust.antt =====
-- Which calls of the webhook endpoint reach the tables (server/src/routes/payment.rs).
use bank_statement_processor.Prelude.{
  ℕ, String, Option, none, some, List, ◌≡◌, ◌⊎◌, inl, inr, refl, ap, sym, ◌∙◌, arith, Bool-cases,
}
use bank_statement_processor.Repository.Db.{Result, Result-cases, ok, err, Tables, Outages}
use bank_statement_processor.Razorpay.Webhook.{Json, RazorpayWebhookPayload}
use bank_statement_processor.Payment.Process.{Env, process_webhook_event}
use bank_statement_processor.Payment.Resolve.{PaymentOperationError}
use bank_statement_processor.Payment.Delivery.{process_twice}
use bank_statement_processor.Http.Error.{ApiError, invalid_request, unauthorized}
use bank_statement_processor.Http.Signature.{hex_decode, verify_webhook_signature}
use bank_statement_processor.Http.Hex.{verify_iff}
use bank_statement_processor.Http.Webhook.{
  Host, WebhookCall, resolve_event_id, answer, process, check_secret, check_signature, webhook,
}

module _ (J : Json) {Body : Type 0} (host : Host Body J.Value) where
  open J use {Value}

  -- The call carries a signature that decodes to the MAC of its body under the configured secret.
  abbrev pub Authentic : Option String → WebhookCall Body → Type 0
  Authentic secret call =
      (key : String) × (header tag : List ℕ) × (secret ≡ some key)
      × (call.signature ≡ some header)
      × (host.mac key call.body ≡ some tag)
      × (hex_decode header ≡ some tag)

  check_secret_cases :
      (secret : Option String) (env : Env) (call : WebhookCall Body) (header : List ℕ)
      (t : Tables Value) (o : Outages)
      → call.signature ≡ some header
      → (Authentic secret call
          × (check_secret J host env call header secret t o
              ≡ process J host env call (host.parse call.body) t o))
        ⊎ (check_secret J host env call header secret t o ≡ (err unauthorized, t, o))
  unfolding check_secret
  check_secret_cases none env call header t o h = inr refl
  check_secret_cases (some key) env call header t o h =
      elim (Bool-cases (verify_webhook_signature host.mac key call.body header)) [
        | inl e ↦
            (let (tag, m, d) = (verify_iff host.mac key call.body header).0 e in
              inl ((key, header, tag, refl, h, m, d), rw e refl))
        | inr e ↦ inr (rw e refl)
      ]

  check_signature_cases :
      (secret : Option String) (env : Env) (call : WebhookCall Body) (signature : Option (List ℕ))
      (t : Tables Value) (o : Outages)
      → call.signature ≡ signature
      → (Authentic secret call
          × (check_signature J host secret env call signature t o
              ≡ process J host env call (host.parse call.body) t o))
        ⊎ (check_signature J host secret env call signature t o ≡ (err unauthorized, t, o))
  unfolding check_signature
  check_signature_cases secret env call none t o h = inr refl
  check_signature_cases secret env call (some header) t o h =
      check_secret_cases secret env call header t o h

  webhook_cases :
      (secret : Option String) (env : Env) (call : WebhookCall Body) (t : Tables Value)
      (o : Outages)
      → (Authentic secret call
          × (webhook J host secret env call t o
              ≡ process J host env call (host.parse call.body) t o))
        ⊎ (webhook J host secret env call t o ≡ (err unauthorized, t, o))
  unfolding webhook
  webhook_cases secret env call t o = check_signature_cases secret env call call.signature t o refl

  answer_ok : (r : Result PaymentOperationError Unit) → answer J host r ≡ ok tt → r ≡ ok tt
  answer_ok (ok u) h = refl
  answer_ok (err e) h = absurd (ground arith)

  -- The signature is the trust boundary. A call to the webhook endpoint either is authentic (its
  -- signature header decodes to the MAC of its raw body under the configured secret), and then, if its
  -- body also parses, it is processed under its event id; or it is answered with an error, no table is
  -- changed and no statement is run.
  pub webhook_trust :
      (secret : Option String) (env : Env) (call : WebhookCall Body) (t : Tables Value)
      (o : Outages)
      → (Authentic secret call
          × ((payload : RazorpayWebhookPayload Value) × (host.parse call.body ≡ ok payload)
              × (let (r, t', o') =
                    process_webhook_event J env (resolve_event_id J host call) payload t o in
                  webhook J host secret env call t o ≡ (answer J host r, t', o'))))
        ⊎ ((e : ApiError) × (webhook J host secret env call t o ≡ (err e, t, o)))
  unfolding process
  webhook_trust secret env call t o = elim (webhook_cases secret env call t o) [
    | inr e ↦ inr (unauthorized, e)
    | inl (a, e) ↦ elim (Result-cases (host.parse call.body)) [
      | inl (payload, p) ↦ inl (a, (payload, p, rw (e, p) refl))
      | inr (x, p) ↦ inr (invalid_request x, rw (e, p) refl)
    ]
  ]

  -- An event is applied once, over the whole endpoint. After a call to the webhook endpoint was answered
  -- with success, every further call with the same event id (so every redelivery of the same request),
  -- whatever else it carries, leaves the tables as they are.
  pub webhook_redelivered :
      (secret : Option String) (env later_env : Env) (call again : WebhookCall Body)
      (t : Tables Value) (o later_o : Outages)
      → (webhook J host secret env call t o).0 ≡ ok tt
      → resolve_event_id J host again ≡ resolve_event_id J host call
      → let t' = (webhook J host secret env call t o).1 in
        (webhook J host secret later_env again t' later_o).1 ≡ t'
  webhook_redelivered secret env later_env call again t o later_o h same =
      elim (webhook_trust secret env call t o) [
        | inr (x, e) ↦ absurd (ground (arith, e))
        | inl (a, (p, d, e)) ↦
            (let t' = (webhook J host secret env call t o).1 in
              elim (webhook_trust secret later_env again t' later_o) [
                | inr (x, e') ↦ ap (λ y. y.1) e'
                | inl (a', (p', d', e')) ↦
                    ap (λ y. y.1) e'
                    ∙ rw (same, ap (λ y. y.1) e)
                        (process_twice J env later_env (resolve_event_id J host call) p p' t o
                          later_o (answer_ok _ (ap (λ y. y.0) (sym e) ∙ h)))
              ])
      ]
