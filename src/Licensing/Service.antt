-- ===== src/Licensing/Service.antt =====
-- Activation, validation, heartbeat and deactivation of devices
-- (server/src/service/license_service.rs). `now` is the clock of the call.
use bank_statement_processor.Prelude.{
  ℕ, String, Bool, true, false, Option, none, some, List, [], ◌∷◌, ◌==◌, str_eq, leb, if◌then◌else◌,
}
use Prim.Native.String.{◌++◌}
use bank_statement_processor.Prelude.Int.{ℤ}
use bank_statement_processor.Domain.Status.{
  LicenseRecordStatus, PlanType, ValidationLogResult, license_status_eq,
}
use bank_statement_processor.Domain.Records.{License, Device, Subscription}
use bank_statement_processor.Repository.Db.{
  RepositoryError, invalid_data, Result, ok, err, Query, Cmd, return, reads,
}
use bank_statement_processor.Repository.Cmd.{◌>>=◌, ◌>>◌}
use bank_statement_processor.Repository.Licenses
use bank_statement_processor.Repository.Subscriptions
use bank_statement_processor.Repository.Devices.{
  DeviceActivationOutcome, activated, limit_reached, is_none,
}
use bank_statement_processor.Repository.Devices
use bank_statement_processor.Repository.Audit.{record_validation}
use bank_statement_processor.Payment.Plans.{decimal}

pub data LicenseOperationError : Type 0 where
  license_not_found license_revoked license_expired device_not_activated : LicenseOperationError
  device_limit_reached : List Device → LicenseOperationError
  device_mismatch : LicenseOperationError
  repository : RepositoryError → LicenseOperationError

pub record ActivationOutcome : Type 0 where
  pub license : License
  pub customer_id : ℕ
  pub plan_type : PlanType

pub record ValidationOutcome : Type 0 where
  pub status : LicenseRecordStatus
  pub expires_at : Option ℕ
  pub grace_period_days : ℤ
  pub fingerprint_matched : Bool

pub record LicenseSummaryOutcome : Type 0 where
  pub license_id : ℕ
  pub status : LicenseRecordStatus
  pub devices_active : ℕ
  pub max_devices : ℤ
  pub license_key : String

pub record SubscriptionSummaryOutcome : Type 0 where
  pub subscription : Subscription
  pub licenses : List LicenseSummaryOutcome

unfoldable pub as_validation_log_result : LicenseRecordStatus → ValidationLogResult
as_validation_log_result LicenseRecordStatus.active = ValidationLogResult.valid
as_validation_log_result LicenseRecordStatus.expired = ValidationLogResult.expired
as_validation_log_result LicenseRecordStatus.suspended = ValidationLogResult.suspended
as_validation_log_result LicenseRecordStatus.revoked = ValidationLogResult.revoked

unfoldable pub has_passed : ℕ → Option ℕ → Bool
has_passed now none = false
has_passed now (some expires_at) = leb expires_at now

unfoldable pub effective_status : ℕ → License → LicenseRecordStatus
unfolding has_passed
effective_status now l =
    if license_status_eq l.status LicenseRecordStatus.active
    then (if has_passed now l.expires_at then LicenseRecordStatus.expired else l.status)
    else l.status

abbrev pub license_result : {A : Type 0} → Result RepositoryError A → Result LicenseOperationError A
license_result (ok a) = ok a
license_result (err e) = err (repository e)

abbrev pub or_fail :
    {A : Type 0} → LicenseOperationError → Option A → Result LicenseOperationError A
or_fail e none = err e
or_fail e (some a) = ok a

-- `.filter(|d| d.deactivated_at.is_none())`
unfoldable pub if_active : Option Device → Option Device
if_active none = none
if_active (some d) = if is_none d.deactivated_at then some d else none

module _ {V : Type 0} where
  abbrev pub ask : {A : Type 0} → Query V RepositoryError A → Cmd V LicenseOperationError A
  ask q t o = let (r, o') = q t o in (license_result r, t, o')

  abbrev pub run : {A : Type 0} → Cmd V RepositoryError A → Cmd V LicenseOperationError A
  run m t o = let (r, t', o') = m t o in (license_result r, t', o')

  abbrev pub give : {A : Type 0} → Result LicenseOperationError A → Cmd V LicenseOperationError A
  give r = reads (return r)

  -- What follows the status check in `activate`.
  unfoldable pub activate_on :
      ℕ → License → String → String → String → Cmd V LicenseOperationError ActivationOutcome
  activate_on now license device_id fingerprint label = do
    outcome ←
        run (Devices.activate_device license.id license.max_devices device_id fingerprint label now)
    elim outcome [
      | limit_reached existing ↦ give (err (device_limit_reached existing))
      | activated ↦ do
        found ← ask (Subscriptions.find_by_id license.subscription_id)
        subscription ← give (
            or_fail
              (repository (
                invalid_data (
                  "license "
                  ++ (decimal license.id
                      ++ (" references missing subscription "
                          ++ decimal license.subscription_id)))))
              found)
        record_validation license.id device_id ValidationLogResult.valid
        give (
            ok (record {
              license = license;
              customer_id = subscription.user_id;
              plan_type = subscription.plan_type;
            }))
    ]

  unfoldable pub activate :
      ℕ → String → String → String → String → Cmd V LicenseOperationError ActivationOutcome
  activate now license_key device_id fingerprint label = do
    found ← ask (Licenses.find_by_key license_key)
    license ← give (or_fail license_not_found found)
    elim (effective_status now license) [
      | LicenseRecordStatus.revoked ↦ do
        record_validation license.id device_id ValidationLogResult.revoked
        give (err license_revoked)
      | LicenseRecordStatus.expired ↦ do
        record_validation license.id device_id ValidationLogResult.expired
        give (err license_expired)
      | _ ↦ activate_on now license device_id fingerprint label
    ]

  -- Without a session every license is accessible; with one, only those of its user.
  unfoldable pub owns_subscription : ℕ → Option ℕ → Cmd V LicenseOperationError Bool
  owns_subscription subscription_id none = give (ok true)
  owns_subscription subscription_id (some user_id) = do
    found ← ask (Subscriptions.find_by_id subscription_id)
    give (ok (elim found [ none ↦ false | some s ↦ s.user_id == user_id ]))

  unfoldable pub active_device : License → String → Cmd V LicenseOperationError Device
  active_device license device_id = do
    found ← ask (Devices.find_by_license_and_device_id license.id device_id)
    give (or_fail device_not_activated (if_active found))

  unfoldable pub find_active_device :
      ℕ → String → Option ℕ → Cmd V LicenseOperationError (License × Device)
  find_active_device license_id device_id user = do
    found ← ask (Licenses.find_by_id license_id)
    license ← give (or_fail device_not_activated found)
    owned ← owns_subscription license.subscription_id user
    if owned
        then (do device ← active_device license device_id; give (ok (license, device)))
        else give (err device_not_activated)

  unfoldable pub validate :
      ℕ → ℕ → String → String → Option ℕ → Cmd V LicenseOperationError ValidationOutcome
  validate now license_id device_id fingerprint user = do
    (license, device) ← find_active_device license_id device_id user
    run (Devices.touch_last_seen device.id now)
    let status = effective_status now license
    if str_eq device.machine_fingerprint fingerprint
        then (do
          record_validation license.id device_id (as_validation_log_result status)
          give (
              ok (record {
                status = status;
                expires_at = license.expires_at;
                grace_period_days = license.grace_period_days;
                fingerprint_matched = true;
              })))
        else (do
          record_validation license.id device_id ValidationLogResult.device_mismatch
          give (err device_mismatch))

  unfoldable pub heartbeat :
      ℕ → ℕ → String → Option ℕ → Cmd V LicenseOperationError LicenseRecordStatus
  heartbeat now license_id device_id user = do
    (license, device) ← find_active_device license_id device_id user
    run (Devices.touch_last_seen device.id now)
    let status = effective_status now license
    record_validation license.id device_id (as_validation_log_result status)
    give (ok status)

  -- The number of devices that stay active.
  unfoldable pub deactivate : ℕ → ℕ → String → String → Option ℕ → Cmd V LicenseOperationError ℕ
  deactivate now license_id device_id fingerprint user = do
    found ← ask (Licenses.find_by_id license_id)
    license ← give (or_fail license_not_found found)
    owned ← owns_subscription license.subscription_id user
    if owned
        then (do
          device ← active_device license device_id
          if str_eq device.machine_fingerprint fingerprint
              then (do
                run (Devices.deactivate device.id now)
                ask (Devices.count_active_by_license license.id))
              else give (err device_mismatch))
        else give (err license_not_found)

  unfoldable pub subscription_summary : ℕ → Cmd V LicenseOperationError SubscriptionSummaryOutcome
  subscription_summary user_id = do
    found ← ask (Subscriptions.find_latest_by_user user_id)
    subscription ← give (
        or_fail (repository (invalid_data ("user " ++ (decimal user_id ++ " has no subscription"))))
          found)
    license ← ask (Licenses.find_latest_by_subscription subscription.id)
    elim license [
      | none ↦ give (ok (record { subscription = subscription; licenses = [] }))
      | some l ↦ do
        devices_active ← ask (Devices.count_active_by_license l.id)
        give (
            ok (record {
              subscription = subscription;
              licenses =
                  record {
                    license_id = l.id;
                    status = l.status;
                    devices_active = devices_active;
                    max_devices = l.max_devices;
                    license_key = l.license_key;
                  }
                  ∷ [];
            }))
    ]
