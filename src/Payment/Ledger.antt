-- ===== src/Payment/Ledger.antt =====
-- The idempotency ledger: what a mutation and a claim do to it
-- (server/src/repository/payment_webhook_event.rs, server/src/service/payment_service.rs).
use bank_statement_processor.Prelude.{ℕ, true, false, none, some, ◌∷◌, ◌≡◌, ◌⊎◌, arith}
use bank_statement_processor.Domain.Records.{NewPaymentWebhookEvent}
use bank_statement_processor.Repository.Db.{
  RepositoryError, Result, ok, err, Tables, Outages, exec, later,
}
use bank_statement_processor.Repository.Payments
use bank_statement_processor.Repository.Subscriptions
use bank_statement_processor.Repository.Licenses
use bank_statement_processor.Repository.WebhookEvents.{
  LicenseMutation, WebhookMutation, nothing, activate_subscription_and_license, mark_payment_failed,
  update_subscription_status, refund_payment, mark_payment_disputed, resolve_dispute, ClaimOutcome,
  applied, already_processed, is_claimed, insert_claim, update_affected, apply_license,
  apply_mutation, after_claim, claim_body, claim_and_apply,
}

module _ {V : Type 0} where
  -- No mutation writes to the ledger.
  pub ledger-apply_mutation :
      (now : ℕ) (m : WebhookMutation) (t : Tables V) (o : Outages)
      → (apply_mutation now m t o).1.payment_webhook_events ≡ t.payment_webhook_events
  unfolding apply_mutation exec Payments.update_status Subscriptions.update_status Licenses.extend
      update_affected apply_license Licenses.insert Licenses.insert_license_row
  ledger-apply_mutation now (activate_subscription_and_license p s e (LicenseMutation.extend l) g) t
        o =
      ground arith
  ledger-apply_mutation now
        (activate_subscription_and_license p s e (LicenseMutation.insert k a b) g) t o =
      ground arith
  ledger-apply_mutation now (mark_payment_failed p) t o = ground arith
  ledger-apply_mutation now (update_subscription_status s st e none) t o = ground arith
  ledger-apply_mutation now (update_subscription_status s st e (some l)) t o = ground arith
  ledger-apply_mutation now (refund_payment p none) t o = ground arith
  ledger-apply_mutation now (refund_payment p (some l)) t o = ground arith
  ledger-apply_mutation now (mark_payment_disputed p none) t o = ground arith
  ledger-apply_mutation now (mark_payment_disputed p (some l)) t o = ground arith
  ledger-apply_mutation now (resolve_dispute p none w) t o = ground arith
  ledger-apply_mutation now (resolve_dispute p (some l) w) t o = ground arith
  ledger-apply_mutation now nothing t o = ground arith

  -- The three ways in which a claim ends: it inserts its row, finds one, or fails.
  abbrev pub Claimed :
      NewPaymentWebhookEvent V → Tables V → Result RepositoryError ClaimOutcome → Tables V → Type 0
  Claimed e t r t' =
      ((r ≡ ok applied)
        × (is_claimed e.provider e.event_id t ≡ false)
        × (t'.payment_webhook_events ≡ e ∷ t.payment_webhook_events))
      ⊎ ((r ≡ ok already_processed) × (is_claimed e.provider e.event_id t ≡ true) × (t' ≡ t))
      ⊎ (((x : RepositoryError) × (r ≡ err x)) × (t' ≡ t))

  pub claim-Claimed :
      (now : ℕ) (e : NewPaymentWebhookEvent V) (m : WebhookMutation) (t : Tables V) (o : Outages)
      → Claimed e t (claim_and_apply now e m t o).0 (claim_and_apply now e m t o).1
  unfolding claim_and_apply claim_body exec insert_claim after_claim
  claim-Claimed now e m t o = ground (
    arith,
    ledger-apply_mutation now m (record t { payment_webhook_events = e ∷ t.payment_webhook_events })
        (later (later o)),
  )
