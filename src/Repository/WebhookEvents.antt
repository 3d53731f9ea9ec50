-- ===== src/Repository/WebhookEvents.antt =====
-- The idempotency ledger and the one transaction that claims an event and applies what it implies
-- (server/src/repository/payment_webhook_event.rs).
use bank_statement_processor.Prelude.{
  ℕ, String, Bool, true, false, ◌&&◌, Option, none, some, List, ◌∷◌, str_eq, ◌==◌, if◌then◌else◌,
  any, update_where,
}
use bank_statement_processor.Prelude.Int.{ℤ}
use bank_statement_processor.Domain.Status.{PaymentStatus, SubscriptionStatus, LicenseRecordStatus}
use bank_statement_processor.Domain.Records.{Payment, NewPaymentWebhookEvent}
use bank_statement_processor.Repository.Db.{
  RepositoryError, database, Result, ok, err, Tables, Cmd, exec, statement, return, reads,
  transaction,
}
use bank_statement_processor.Repository.Cmd.{◌>>=◌, ◌>>◌}
use bank_statement_processor.Repository.Payments.{gateway_taken}
use bank_statement_processor.Repository.Payments
use bank_statement_processor.Repository.Subscriptions
use bank_statement_processor.Repository.Licenses

pub data LicenseMutation : Type 0 where
  extend : ℕ → LicenseMutation
  insert : String → ℤ → ℤ → LicenseMutation

pub record AffectedLicense : Type 0 where
  pub license_id : ℕ
  pub expires_at : Option ℕ

pub record AffectedLicenseStatusChange : Type 0 where
  pub license_id : ℕ
  pub expires_at : Option ℕ
  pub status : LicenseRecordStatus

-- The fields of each variant in the order of the source.
pub data WebhookMutation : Type 0 where
  activate_subscription_and_license :
      ℕ → ℕ → Option ℕ → LicenseMutation → Option String → WebhookMutation
  mark_payment_failed : ℕ → WebhookMutation
  update_subscription_status :
      ℕ → SubscriptionStatus → Option ℕ → Option AffectedLicenseStatusChange → WebhookMutation
  refund_payment : ℕ → Option AffectedLicense → WebhookMutation
  mark_payment_disputed : ℕ → Option AffectedLicense → WebhookMutation
  resolve_dispute : ℕ → Option AffectedLicense → Bool → WebhookMutation
  nothing : WebhookMutation

pub data ClaimOutcome : Type 0 where
  applied already_processed : ClaimOutcome

-- COALESCE($3, gateway_payment_id)
unfoldable pub coalesce : Option String → Option String → Option String
coalesce (some g) old = some g
coalesce none old = old

unfoldable pub succeed_payment : ℕ → Option String → List Payment → List Payment
succeed_payment id g =
    update_where (λ p. p.id == id)
      (λ p. record p {
        status = PaymentStatus.succeeded;
        gateway_payment_id = coalesce g p.gateway_payment_id;
      })

module _ {V : Type 0} where
  -- (provider, event_id) is UNIQUE in the ledger.
  unfoldable pub is_claimed : String → String → Tables V → Bool
  is_claimed provider event_id t =
      any (λ e. str_eq e.provider provider && str_eq e.event_id event_id) t.payment_webhook_events

  -- INSERT … ON CONFLICT DO NOTHING, with whether a row was inserted.
  unfoldable pub insert_claim :
      NewPaymentWebhookEvent V → Tables V → Result RepositoryError Bool × Tables V
  insert_claim e t =
      if is_claimed e.provider e.event_id t
      then (ok false, t)
      else (ok true, record t { payment_webhook_events = e ∷ t.payment_webhook_events })

  unfoldable pub update_affected :
      Option AffectedLicense → LicenseRecordStatus → Cmd V RepositoryError Unit
  update_affected none s = reads (return (ok tt))
  update_affected (some l) s = Licenses.extend l.license_id s l.expires_at

  unfoldable pub apply_license : ℕ → Option ℕ → ℕ → LicenseMutation → Cmd V RepositoryError Unit
  apply_license subscription_id period_end now (extend license_id) =
      Licenses.extend license_id LicenseRecordStatus.active period_end
  apply_license subscription_id period_end now (insert key max_devices grace) = do
    Licenses.insert
        (record {
          subscription_id = subscription_id;
          license_key = key;
          status = LicenseRecordStatus.active;
          expires_at = period_end;
          max_devices = max_devices;
          grace_period_days = grace;
        })
        now
    reads (return (ok tt))

  unfoldable pub apply_mutation : ℕ → WebhookMutation → Cmd V RepositoryError Unit
  apply_mutation now nothing = reads (return (ok tt))
  apply_mutation now (mark_payment_failed payment_id) =
      Payments.update_status payment_id PaymentStatus.failed
  apply_mutation now (update_subscription_status subscription_id s period_end license) = do
    Subscriptions.update_status subscription_id s period_end now
    elim license [
      | none ↦ reads (return (ok tt))
      | some l ↦ Licenses.extend l.license_id l.status l.expires_at
    ]
  apply_mutation now
        (activate_subscription_and_license payment_id subscription_id period_end license g) =
      do
        exec database (λ t.
            if gateway_taken payment_id g t.payments
            then (err database, t)
            else (ok tt, record t { payments = succeed_payment payment_id g t.payments }))
        Subscriptions.update_status subscription_id SubscriptionStatus.active period_end now
        apply_license subscription_id period_end now license
  apply_mutation now (refund_payment payment_id license) = do
    Payments.update_status payment_id PaymentStatus.refunded
    update_affected license LicenseRecordStatus.revoked
  apply_mutation now (mark_payment_disputed payment_id license) = do
    Payments.update_status payment_id PaymentStatus.disputed
    update_affected license LicenseRecordStatus.suspended
  apply_mutation now (resolve_dispute payment_id license merchant_won) = do
    Payments.update_status payment_id
        (if merchant_won then PaymentStatus.succeeded else PaymentStatus.refunded)
    update_affected license
        (if merchant_won then LicenseRecordStatus.active else LicenseRecordStatus.revoked)

  unfoldable pub after_claim : ℕ → WebhookMutation → Bool → Cmd V RepositoryError ClaimOutcome
  after_claim now mutation false = do statement database; reads (return (ok already_processed))
  after_claim now mutation true = do
    apply_mutation now mutation
    statement database
    reads (return (ok applied))

  -- The statements between BEGIN and COMMIT or ROLLBACK, these included.
  unfoldable pub claim_body :
      ℕ → NewPaymentWebhookEvent V → WebhookMutation → Cmd V RepositoryError ClaimOutcome
  claim_body now new_event mutation = do
    statement database
    inserted ← exec database (insert_claim new_event)
    after_claim now mutation inserted

  unfoldable pub claim_and_apply :
      ℕ → NewPaymentWebhookEvent V → WebhookMutation → Cmd V RepositoryError ClaimOutcome
  claim_and_apply now new_event mutation = transaction (claim_body now new_event mutation)
