-- ===== src/Tests/Endpoint.antt =====
-- The theorems on the webhook endpoint at one signed call. The MAC of a body is the body itself, and every
-- body is read as the capture of the purchase.
use bank_statement_processor.Prelude.{ℕ, some, List, [], ◌∷◌, ◌≡◌, ◌↔◌, ◌⊎◌, refl, arith, true}
use bank_statement_processor.Prelude.Int.{pos}
use bank_statement_processor.Repository.Db.{ok, err}
use bank_statement_processor.Razorpay.Webhook.{RazorpayWebhookPayload}
use bank_statement_processor.Payment.Process.{process_webhook_event}
use bank_statement_processor.Http.Error.{ApiError}
use bank_statement_processor.Http.Signature.{
  hex_decode, hex_encode, verify_webhook_signature, to_digit, from_str_radix, decode_pairs,
  bytes_eq,
}
use bank_statement_processor.Http.Hex.{hex_decode-hex_encode, verify_iff}
use bank_statement_processor.Http.Webhook.{
  Host, WebhookCall, resolve_event_id, answer, process, check_secret, check_signature, webhook,
}
use bank_statement_processor.Http.Trust.{Authentic, webhook_trust, webhook_redelivered}
use bank_statement_processor.Tests.Document.{Document, documents}
use bank_statement_processor.Tests.Shop.{captured, shop, env}
use bank_statement_processor.Tests.Webhooks.{first_delivery}

abbrev host : Host (List ℕ) Document
host = record {
  mac = λ key body. some body;
  parse = λ body. ok (captured (pos 49900));
  lossy = λ body. "body";
  hash_token = λ text. text;
  texts = record { sqlx = "pool timed out"; debug = λ text. text };
}

-- The body is the byte 10, and the header its hexadecimal text "0a".
abbrev signed : WebhookCall (List ℕ)
signed = record { signature = some (48 ∷ 97 ∷ []); event_id = some "e1"; body = 10 ∷ [] }

hex_decode-hex_encode_example : hex_decode (hex_encode (10 ∷ 255 ∷ [])) ≡ some (10 ∷ 255 ∷ [])
hex_decode-hex_encode_example =
    hex_decode-hex_encode (10 ∷ 255 ∷ []) (omega arith, (omega arith, tt))

verify_iff_example :
    (verify_webhook_signature host.mac "secret" (10 ∷ []) (48 ∷ 97 ∷ []) ≡ true) ↔ (
      (tag : List ℕ) × (host.mac "secret" (10 ∷ []) ≡ some tag)
      × (hex_decode (48 ∷ 97 ∷ []) ≡ some tag))
verify_iff_example = verify_iff host.mac "secret" (10 ∷ []) (48 ∷ 97 ∷ [])

webhook_trust_example :
    (Authentic documents host (some "secret") signed
      × ((payload : RazorpayWebhookPayload Document) × (host.parse signed.body ≡ ok payload)
          × (let (r, t', o') =
                process_webhook_event documents env
                  (resolve_event_id documents host signed)
                  payload
                  shop
                  [] in
              webhook documents host (some "secret") env signed shop []
              ≡ (answer documents host r, t', o'))))
    ⊎ ((e : ApiError) × (webhook documents host (some "secret") env signed shop []
          ≡ (err e, shop, [])))
webhook_trust_example = webhook_trust documents host (some "secret") env signed shop []

accepted : (webhook documents host (some "secret") env signed shop []).0 ≡ ok tt
unfolding webhook check_signature check_secret verify_webhook_signature process hex_decode
    decode_pairs from_str_radix to_digit bytes_eq resolve_event_id
accepted = rw first_delivery refl

webhook_redelivered_example :
    let t' = (webhook documents host (some "secret") env signed shop []).1 in
    (webhook documents host (some "secret") env signed t' []).1 ≡ t'
webhook_redelivered_example =
    webhook_redelivered documents host (some "secret") env env signed signed shop [] [] accepted
      refl
