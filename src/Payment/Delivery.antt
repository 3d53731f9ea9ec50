-- ===== src/Payment/Delivery.antt =====
-- Deliveries of webhook events: what a claim does to the ledger, and a replay
-- (server/src/service/payment_service.rs, server/src/repository/payment_webhook_event.rs).
use bank_statement_processor.Prelude.{
  String, Bool, true, false, ◌≡◌, ◌⊎◌, inl, inr, arith, eq_iff, any,
}
use bank_statement_processor.Repository.Db.{ok, Result-cases, Tables, Outages, continue_cmd}
use bank_statement_processor.Repository.WebhookEvents.{WebhookMutation, ClaimOutcome, is_claimed}
use bank_statement_processor.Razorpay.Webhook.{Json, RazorpayWebhookPayload}
use bank_statement_processor.Payment.Process.{
  Env, provider_name, resolve, ledger_row, claim, process_webhook_event,
}
use bank_statement_processor.Payment.Ledger.{claim-Claimed}

module _ (J : Json) where
  open J use {Value}

  -- The ledger holds an event of this id.
  abbrev pub seen : String → Tables Value → Bool
  seen id t = is_claimed provider_name id t

  -- A claim leaves the tables as they are, or its id was not in the ledger and then is. An id that is
  -- there is never forgotten.
  pub claim_changes :
      (env : Env) (id : String) (p : RazorpayWebhookPayload Value) (m : WebhookMutation)
      (t : Tables Value) (o : Outages)
      → ((claim J env id p m t o).1 ≡ t)
        ⊎ ((seen id t ≡ false) × (seen id (claim J env id p m t o).1 ≡ true))
  unfolding claim ledger_row is_claimed any
  claim_changes env id p m t o = ground (
    arith,
    claim-Claimed env.db_now (ledger_row J id p) m t o,
    eq_iff id id,
    eq_iff provider_name provider_name,
  )

  pub claim_records :
      (env : Env) (id : String) (p : RazorpayWebhookPayload Value) (m : WebhookMutation)
      (t : Tables Value) (o : Outages) {c : ClaimOutcome}
      → (claim J env id p m t o).0 ≡ ok c
      → seen id (claim J env id p m t o).1 ≡ true
  unfolding claim ledger_row is_claimed any
  claim_records env id p m t o h = ground (
    arith,
    claim-Claimed env.db_now (ledger_row J id p) m t o,
    eq_iff id id,
    eq_iff provider_name provider_name,
  )

  pub claim_replay :
      (env : Env) (id : String) (p : RazorpayWebhookPayload Value) (m : WebhookMutation)
      (t : Tables Value) (o : Outages)
      → seen id t ≡ true
      → (claim J env id p m t o).1 ≡ t
  unfolding claim ledger_row
  claim_replay env id p m t o h = ground (arith, claim-Claimed env.db_now (ledger_row J id p) m t o)

  pub claim_remembers :
      (env : Env) (id : String) (p : RazorpayWebhookPayload Value) (m : WebhookMutation)
      (t : Tables Value) (o : Outages) (other : String)
      → seen other t ≡ true
      → seen other (claim J env id p m t o).1 ≡ true
  unfolding claim ledger_row is_claimed any
  claim_remembers env id p m t o other h =
      ground (arith, claim-Claimed env.db_now (ledger_row J id p) m t o)

  process_replay :
      (env : Env) (id : String) (p : RazorpayWebhookPayload Value) (t : Tables Value) (o : Outages)
      → seen id t ≡ true
      → (process_webhook_event J env id p t o).1 ≡ t
  unfolding process_webhook_event
  process_replay env id p t o h = elim (Result-cases (resolve J env p t o).0) [
    | inr (x, k) ↦ rw (k, continue_cmd)
    | inl (m, k) ↦
        rw (k, continue_cmd)
          (elim (Result-cases (claim J env id p m t (resolve J env p t o).1).0) [
            | inr (x, l) ↦
                rw (l, continue_cmd) (claim_replay env id p m t (resolve J env p t o).1 h)
            | inl (c, l) ↦
                rw (l, continue_cmd) (claim_replay env id p m t (resolve J env p t o).1 h)
          ])
  ]

  process_records :
      (env : Env) (id : String) (p : RazorpayWebhookPayload Value) (t : Tables Value) (o : Outages)
      → (process_webhook_event J env id p t o).0 ≡ ok tt
      → seen id (process_webhook_event J env id p t o).1 ≡ true
  unfolding process_webhook_event
  process_records env id p t o h = elim (Result-cases (resolve J env p t o).0) [
    | inr (x, k) ↦ (let false_claim = rw (k, continue_cmd) at h in absurd (cc))
    | inl (m, k) ↦ elim (Result-cases (claim J env id p m t (resolve J env p t o).1).0) [
      | inr (x, l) ↦
          (let step = rw (k, continue_cmd) at h in
            let false_claim = rw (l, continue_cmd) at step in absurd (cc))
      | inl (c, l) ↦
          rw (k, continue_cmd)
            (rw (l, continue_cmd) (claim_records env id p m t (resolve J env p t o).1 l))
    ]
  ]

  -- After a webhook event was processed without an error, processing an event of the same id again
  -- changes no table, whatever its payload, the clock and the state of the database then are.
  pub process_twice :
      (env env' : Env) (id : String) (p p' : RazorpayWebhookPayload Value) (t : Tables Value)
      (o o' : Outages)
      → (process_webhook_event J env id p t o).0 ≡ ok tt
      → (process_webhook_event J env' id p' (process_webhook_event J env id p t o).1 o').1
        ≡ (process_webhook_event J env id p t o).1
  process_twice env env' id p p' t o o' h =
      process_replay env' id p' (process_webhook_event J env id p t o).1 o'
        (process_records env id p t o h)
