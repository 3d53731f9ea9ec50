-- ===== src/Payment/Outages.antt =====
-- Database failures during the processing of a webhook event
-- (server/src/service/payment_service.rs, server/src/repository/payment_webhook_event.rs).
use bank_statement_processor.Prelude.{inl, inr, arith, ℕ, String, [], ◌≡◌, refl, ◌⊎◌}
use bank_statement_processor.Domain.Records.{NewPaymentWebhookEvent}
use bank_statement_processor.Repository.Db.{
  Result-cases, continue_cmd, RepositoryError, database, Tables, Outages, err, ok, Result,
}
use bank_statement_processor.Repository.Steady.{
  Steady, SteadyCmd, return-Steady, reads-Steady, bind-SteadyCmd, transaction_unchanged,
  map-SteadyCmd,
}
use bank_statement_processor.Repository.WebhookEvents.{WebhookMutation, claim_body, claim_and_apply}
use bank_statement_processor.Razorpay.Webhook.{Json, RazorpayWebhookPayload}
use bank_statement_processor.Payment.Process.{
  ledger_row, Env, event_kind, resolve, claim, process_webhook_event,
}
use bank_statement_processor.Payment.Resolve.{PaymentOperationError, repository, from_result}
use bank_statement_processor.Payment.Reads.{resolve_kind-Steady}
use bank_statement_processor.Repository.Claims.{claim_and_apply-Steady}

module _ (J : Json) where
  open J use {Value}

  pub resolve-Steady :
      (env : Env) (p : RazorpayWebhookPayload Value)
      → Steady (repository database) (resolve J env p)
  unfolding resolve
  resolve-Steady env p = resolve_kind-Steady J env (event_kind p.event) p

  claim-Steady :
      (env : Env) (id : String) (p : RazorpayWebhookPayload Value) (m : WebhookMutation)
      → SteadyCmd (repository database) (claim J env id p m)
  unfolding claim
  claim-Steady env id p m = map-SteadyCmd from_result refl (claim_and_apply-Steady _ _ m)

  pub process-Steady :
      (env : Env) (id : String) (p : RazorpayWebhookPayload Value)
      → SteadyCmd (repository database) (process_webhook_event J env id p)
  unfolding process_webhook_event
  process-Steady env id p =
      bind-SteadyCmd _ (reads-Steady _ (resolve-Steady env p))
        λ m. bind-SteadyCmd _ (claim-Steady env id p m) λ _. reads-Steady _ (return-Steady _ _)

  claim_and_apply_unchanged :
      (now : ℕ) (event : NewPaymentWebhookEvent Value) (m : WebhookMutation) (t : Tables Value)
      (o : Outages) {e : RepositoryError}
      → (claim_and_apply now event m t o).0 ≡ err e
      → (claim_and_apply now event m t o).1 ≡ t
  unfolding claim_and_apply
  claim_and_apply_unchanged now event m t o h = transaction_unchanged (claim_body now event m) t o h

  from_result-err :
      {A : Type 0} (r : Result RepositoryError A) {e : PaymentOperationError}
      → from_result r ≡ err e
      → (x : RepositoryError) × (r ≡ err x)
  from_result-err (ok a) h = absurd (ground arith)
  from_result-err (err x) h = (x, refl)

  claim_unchanged :
      (env : Env) (id : String) (p : RazorpayWebhookPayload Value) (m : WebhookMutation)
      (t : Tables Value) (o : Outages) {e : PaymentOperationError}
      → (claim J env id p m t o).0 ≡ err e
      → (claim J env id p m t o).1 ≡ t
  unfolding claim
  claim_unchanged env id p m t o h =
      let (x, k) = from_result-err (claim_and_apply env.db_now (ledger_row J id p) m t o).0 h in
      claim_and_apply_unchanged env.db_now (ledger_row J id p) m t o k

  -- A call that reports an error has left every table as it was.
  pub process_error_unchanged :
      (env : Env) (id : String) (p : RazorpayWebhookPayload Value) (t : Tables Value) (o : Outages)
      {e : PaymentOperationError}
      → (process_webhook_event J env id p t o).0 ≡ err e
      → (process_webhook_event J env id p t o).1 ≡ t
  unfolding process_webhook_event
  process_error_unchanged env id p t o h = elim (Result-cases (resolve J env p t o).0) [
    | inr (x, k) ↦ rw (k, continue_cmd)
    | inl (m, k) ↦ elim (Result-cases (claim J env id p m t (resolve J env p t o).1).0) [
      | inr (x, l) ↦
          rw (k, continue_cmd)
            (rw (l, continue_cmd) (claim_unchanged env id p m t (resolve J env p t o).1 l))
      | inl (c, l) ↦
          let absurdity = rw (k, continue_cmd) at h in
          let absurdity' = rw (l, continue_cmd) at absurdity in cc
    ]
  ]

  -- Processing a webhook event is all or nothing. Whatever statements fail, either the call reports an
  -- error and every table is as before, or it succeeds with just the tables that it leaves when the
  -- database does not fail at all.
  pub process_all_or_nothing :
      (env : Env) (id : String) (p : RazorpayWebhookPayload Value) (t : Tables Value) (o : Outages)
      → (((e : PaymentOperationError) × ((process_webhook_event J env id p t o).0 ≡ err e))
          × ((process_webhook_event J env id p t o).1 ≡ t))
        ⊎ (((process_webhook_event J env id p t o).0 ≡ ok tt)
            × ((process_webhook_event J env id p t o).1
                ≡ (process_webhook_event J env id p t []).1))
  process_all_or_nothing env id p t o =
      elim (Result-cases (process_webhook_event J env id p t o).0) [
        | inr (e, k) ↦ inl ((e, k), process_error_unchanged env id p t o k)
        | inl (u, k) ↦ elim ((process-Steady env id p).agrees t o) [
          | inl h ↦ absurd (ground arith)
          | inr (h, l) ↦ inr (k, l)
        ]
      ]
