-- ===== src/Repository/Claims.antt =====
-- The transaction that claims and applies an event when the database fails
-- (server/src/repository/payment_webhook_event.rs).
use bank_statement_processor.Prelude.{ℕ, Bool, true, false, Option, none, some}
use bank_statement_processor.Domain.Status.{PaymentStatus, SubscriptionStatus, LicenseRecordStatus}
use bank_statement_processor.Domain.Records.{NewPaymentWebhookEvent}
use bank_statement_processor.Repository.Db.{database, ok, return, reads}
use bank_statement_processor.Repository.Steady.{
  SteadyCmd, return-Steady, exec-Steady, reads-Steady, bind-SteadyCmd, transaction-Steady,
}
use bank_statement_processor.Repository.Payments
use bank_statement_processor.Repository.Subscriptions
use bank_statement_processor.Repository.Licenses
use bank_statement_processor.Repository.WebhookEvents.{
  LicenseMutation, AffectedLicense, AffectedLicenseStatusChange, WebhookMutation, nothing,
  activate_subscription_and_license, mark_payment_failed, update_subscription_status,
  refund_payment, mark_payment_disputed, resolve_dispute, applied, already_processed,
  update_affected, apply_license, apply_mutation, after_claim, claim_body, claim_and_apply,
}

module _ {V : Type 0} where
  extend-Steady :
      (id : ℕ) (s : LicenseRecordStatus) (e : Option ℕ)
      → SteadyCmd database (Licenses.extend {V = V} id s e)
  unfolding Licenses.extend
  extend-Steady id s e = exec-Steady database _

  status-Steady :
      (id : ℕ) (s : PaymentStatus) → SteadyCmd database (Payments.update_status {V = V} id s)
  unfolding Payments.update_status
  status-Steady id s = exec-Steady database _

  subscription_status-Steady :
      (id : ℕ) (s : SubscriptionStatus) (e : Option ℕ) (now : ℕ)
      → SteadyCmd database (Subscriptions.update_status {V = V} id s e now)
  unfolding Subscriptions.update_status
  subscription_status-Steady id s e now = exec-Steady database _

  done-Steady : {A : Type 0} (a : A) → SteadyCmd {V = V} database (reads (return (ok a)))
  done-Steady a = reads-Steady database (return-Steady database (ok a))

  update_affected-Steady :
      (l : Option AffectedLicense) (s : LicenseRecordStatus)
      → SteadyCmd database (update_affected {V = V} l s)
  unfolding update_affected
  update_affected-Steady none s = done-Steady tt
  update_affected-Steady (some l) s = extend-Steady _ _ _

  apply_license-Steady :
      (sub : ℕ) (e : Option ℕ) (now : ℕ) (m : LicenseMutation)
      → SteadyCmd database (apply_license {V = V} sub e now m)
  unfolding apply_license Licenses.insert
  apply_license-Steady sub e now (LicenseMutation.extend id) = extend-Steady _ _ _
  apply_license-Steady sub e now (LicenseMutation.insert key max grace) =
      bind-SteadyCmd database (exec-Steady database _) λ l. done-Steady tt

  change-Steady :
      (l : Option AffectedLicenseStatusChange)
      → SteadyCmd {V = V} database (elim l [
        | none ↦ reads (return (ok tt))
        | some c ↦ Licenses.extend c.license_id c.status c.expires_at
      ])
  change-Steady none = done-Steady tt
  change-Steady (some c) = extend-Steady _ _ _

  apply_mutation-Steady :
      (now : ℕ) (m : WebhookMutation) → SteadyCmd database (apply_mutation {V = V} now m)
  unfolding apply_mutation
  apply_mutation-Steady now (activate_subscription_and_license p s e l g) =
      bind-SteadyCmd database (exec-Steady database _) λ _.
        bind-SteadyCmd database (subscription_status-Steady _ _ _ _)
          λ _. apply_license-Steady s e now l
  apply_mutation-Steady now (mark_payment_failed p) = status-Steady _ _
  apply_mutation-Steady now (update_subscription_status s st e l) =
      bind-SteadyCmd database (subscription_status-Steady _ _ _ _) λ _. change-Steady l
  apply_mutation-Steady now (refund_payment p l) =
      bind-SteadyCmd database (status-Steady _ _) λ _. update_affected-Steady l _
  apply_mutation-Steady now (mark_payment_disputed p l) =
      bind-SteadyCmd database (status-Steady _ _) λ _. update_affected-Steady l _
  apply_mutation-Steady now (resolve_dispute p l won) =
      bind-SteadyCmd database (status-Steady _ _) λ _. update_affected-Steady l _
  apply_mutation-Steady now nothing = done-Steady tt

  after_claim-Steady :
      (now : ℕ) (m : WebhookMutation) (b : Bool) → SteadyCmd database (after_claim {V = V} now m b)
  unfolding after_claim
  after_claim-Steady now m true =
      bind-SteadyCmd database (apply_mutation-Steady now m)
        λ _. bind-SteadyCmd database (exec-Steady database _) λ _. done-Steady applied
  after_claim-Steady now m false =
      bind-SteadyCmd database (exec-Steady database _) λ _. done-Steady already_processed

  pub claim_and_apply-Steady :
      (now : ℕ) (e : NewPaymentWebhookEvent V) (m : WebhookMutation)
      → SteadyCmd database (claim_and_apply now e m)
  unfolding claim_and_apply claim_body
  claim_and_apply-Steady now e m = transaction-Steady (
      bind-SteadyCmd database (exec-Steady database _)
        λ _. bind-SteadyCmd database (exec-Steady database _) λ b. after_claim-Steady now m b)
