-- ===== src/Payment/Reconcile.antt =====
-- The pull-based backstop: `reconcile_one` and `reconcile_once`
-- (server/src/service/payment_service.rs).
use bank_statement_processor.Prelude.{
  ℕ, ◌+◌, String, Bool, true, false, Option, none, some, List, [], ◌∷◌, if◌then◌else◌, length,
}
use Prim.Native.String.{◌++◌}
use bank_statement_processor.Domain.Status.{PaymentStatus, payment_status_eq}
use bank_statement_processor.Domain.Records.{Payment}
use bank_statement_processor.Repository.Db.{
  Result, ok, err, Query, Cmd, return, reads, Tables, Outages,
}
use bank_statement_processor.Repository.Query
use bank_statement_processor.Repository.Cmd.{◌>>=◌, ◌>>◌}
use bank_statement_processor.Repository.Payments
use bank_statement_processor.Razorpay.Webhook.{Json, RazorpayWebhookPayload}
use bank_statement_processor.Razorpay.Client.{RazorpayError, RazorpayPayment}
use bank_statement_processor.Payment.Plans.{map_razorpay_payment_status, decimal}
use bank_statement_processor.Payment.Resolve.{PaymentOperationError, from_repository}
use bank_statement_processor.Payment.Process.{Env, process_webhook_event, provider_answer}

pub record ReconciliationSummary : Type 0 where
  pub checked : ℕ
  pub healed : ℕ

-- The event that a status of the provider stands for, and the payload that is built for it.
unfoldable pub reconcile_event_type : PaymentStatus → Option String
reconcile_event_type PaymentStatus.succeeded = some "payment.captured"
reconcile_event_type PaymentStatus.failed = some "payment.failed"
reconcile_event_type PaymentStatus.refunded = some "refund.created"
reconcile_event_type _ = none

unfoldable pub reconcile_event_id : Payment → RazorpayPayment → String
reconcile_event_id l p = "reconcile:" ++ (decimal l.id ++ (":" ++ (p.status ++ (":" ++ p.id))))

module _ {V : Type 0} where
  -- The first candidate reference with a local payment: `order_id` if there is one, then `id`.
  unfoldable pub find_local : RazorpayPayment → Query V PaymentOperationError (Option Payment)
  find_local p = elim p.order_id [
    | none ↦ from_repository (Payments.find_by_provider_ref p.id)
    | some order ↦ Query.◌>>=◌ (from_repository (Payments.find_by_provider_ref order)) (λ found.
        elim found [
          | some l ↦ return (ok (some l))
          | none ↦ from_repository (Payments.find_by_provider_ref p.id)
        ])
  ]

module _ (J : Json) where
  open J use {Value, object, string, null}

  -- serde writes `Some` of a string as the string and `None` as null.
  unfoldable pub json_option : Option String → Value
  json_option none = null
  json_option (some s) = string s

  unfoldable pub reconcile_payload : String → RazorpayPayment → RazorpayWebhookPayload Value
  unfolding json_option
  reconcile_payload event_type p = record {
    event = event_type;
    payload = object (
        (
          "payment",
          object (
              ("entity", object (("id", string p.id) ∷ ("order_id", json_option p.order_id) ∷ []))
              ∷ []),
        )
        ∷ []);
  }

  -- The local payment differs from what the provider reports: process a synthetic event.
  unfoldable pub heal :
      Env → RazorpayPayment → Payment → String → Cmd Value PaymentOperationError Bool
  heal env p l event_type = do
    process_webhook_event J env (reconcile_event_id l p) (reconcile_payload event_type p)
    reads (return (ok true))

  unfoldable pub reconcile_one : Env → RazorpayPayment → Cmd Value PaymentOperationError Bool
  reconcile_one env p = elim (map_razorpay_payment_status p.status) [
    | none ↦ reads (return (ok false))
    | some razorpay_status ↦ do
      found ← reads (find_local p)
      elim found [
        | none ↦ reads (return (ok false))
        | some l ↦
            if payment_status_eq l.status razorpay_status
            then reads (return (ok false))
            else elim (reconcile_event_type razorpay_status) [
              | none ↦ reads (return (ok false))
              | some event_type ↦ heal env p l event_type
            ]
      ]
  ]

  abbrev pub healed_by : Result PaymentOperationError Bool → ℕ
  healed_by (ok true) = 1
  healed_by (ok false) = 0
  healed_by (err e) = 0

  -- The loop over the payments; one that fails is skipped. Each takes its own surroundings.
  unfoldable pub reconcile_loop :
      (ℕ → Env) → ℕ → List RazorpayPayment → Tables Value → Outages → ℕ × Tables Value × Outages
  reconcile_loop env healed [] t o = (healed, t, o)
  reconcile_loop env healed (p ∷ ps) t o =
      let (r, t', o') = reconcile_one (env (length ps)) p t o in
      reconcile_loop env (healed + healed_by r) ps t' o'

  -- `answer` is what `list_payments_since` gives for the lookback window.
  unfoldable pub reconcile_once :
      (ℕ → Env)
      → Result RazorpayError (List RazorpayPayment)
      → Cmd Value PaymentOperationError ReconciliationSummary
  reconcile_once env answer = do
    payments ← reads (return (provider_answer answer))
    λ t o.
        let (healed, t', o') = reconcile_loop env 0 payments t o in
        (ok (record { checked = length payments; healed = healed }), t', o')
