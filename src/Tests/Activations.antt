-- ===== src/Tests/Activations.antt =====
-- The theorems on the activation and the validation of devices at a license with one slot.
use bank_statement_processor.Prelude.{
  str_eq, true, none, some, [], ◌∷◌, ◌≡◌, ◌≢◌, refl, arith, find, select, any, update_where,
}
use bank_statement_processor.Prelude.Int.{pos, ◌≤ℤ◌, as_i32}
use bank_statement_processor.Domain.Status.{LicenseRecordStatus, PlanType, license_status_eq}
use bank_statement_processor.Domain.Records.{License, Device}
use bank_statement_processor.Repository.Db.{Tables, query, exec, fails, later}
use bank_statement_processor.Repository.Devices
use bank_statement_processor.Repository.Devices.{activated, limit_reached, activate_device}
use bank_statement_processor.Repository.Licenses
use bank_statement_processor.Repository.Subscriptions
use bank_statement_processor.Repository.Audit.{record_validation}
use bank_statement_processor.Repository.Capacity.{active_count, activate_device-capacity}
use bank_statement_processor.Repository.Activation.{is_bound}
use bank_statement_processor.Licensing.Service.{
  deactivate, ActivationOutcome, ValidationOutcome, activate, activate_on, effective_status,
  has_passed, validate, find_active_device, owns_subscription, active_device, if_active,
}
use bank_statement_processor.Licensing.Activation.{activate_entitles}
use bank_statement_processor.Licensing.Entitlement.{Owns, Entitled, validate_entitles}
use bank_statement_processor.Licensing.Release.{is_released, OnlyDevice, deactivate_releases}
use bank_statement_processor.Tests.Document.{Document}
use bank_statement_processor.Tests.Shop.{purchase, shop_with}

abbrev pub issued : License
issued = record {
  id = 5;
  subscription_id = 3;
  license_key = "K";
  status = LicenseRecordStatus.active;
  expires_at = some 1000;
  max_devices = pos 1;
  grace_period_days = pos 7;
  issued_at = 20;
  revoked_at = none;
  revoked_reason = none;
}

abbrev laptop : Device
laptop = record {
  id = 1;
  license_id = 5;
  device_id = "d1";
  machine_fingerprint = "f1";
  device_label = none;
  first_seen_at = 30;
  last_seen_at = 30;
  deactivated_at = none;
}

abbrev free : Tables Document
free = shop_with (purchase ∷ []) (issued ∷ []) []

abbrev taken : Tables Document
taken = shop_with (purchase ∷ []) (issued ∷ []) (laptop ∷ [])

activate_device-capacity_example :
    pos (active_count 5 (activate_device 5 (pos 1) "d2" "f2" "desk" 100 taken []).1.devices)
    ≤ℤ pos 1
unfolding select Devices.is_active_of Devices.is_none
activate_device-capacity_example =
    activate_device-capacity 5 (pos 1) "d2" "f2" "desk" 100 taken [] (tt, tt) (omega arith)
      (omega arith)

abbrev granted : ActivationOutcome
granted = record { license = issued; customer_id = 1; plan_type = PlanType.monthly }

activate_entitles_example :
    (find (λ l. str_eq l.license_key "K") free.licenses ≡ some issued)
    × (effective_status 100 issued ≢ LicenseRecordStatus.revoked)
    × (effective_status 100 issued ≢ LicenseRecordStatus.expired)
    × (any (is_bound 5 "d2" "f2") (activate 100 "K" "d2" "f2" "desk" free []).1.devices ≡ true)
unfolding activate activate_on Licenses.find_by_key Subscriptions.find_by_id effective_status
    has_passed license_status_eq activate_device Devices.decide_activation Devices.lock_license
    Devices.insert_device_row Devices.is_none Devices.is_device_of query exec fails later select
    find any as_i32 record_validation
activate_entitles_example = activate_entitles 100 "K" "d2" "f2" "desk" free [] granted refl

abbrev vouched : ValidationOutcome
vouched = record {
  status = LicenseRecordStatus.active;
  expires_at = some 1000;
  grace_period_days = pos 7;
  fingerprint_matched = true;
}

validate_entitles_example :
    (l : License) × (d : Device) × Entitled 5 "d1" (some 1) taken l d
    × (d.machine_fingerprint ≡ "f1")
    × (LicenseRecordStatus.active ≡ effective_status 100 l)
    × (some 1000 ≡ l.expires_at)
unfolding validate find_active_device owns_subscription active_device if_active Licenses.find_by_id
    Subscriptions.find_by_id Devices.find_by_license_and_device_id Devices.touch_last_seen
    Devices.is_none Devices.is_device_of effective_status has_passed license_status_eq query exec
    fails later select find any update_where record_validation
validate_entitles_example = validate_entitles 100 5 "d1" "f1" (some 1) taken [] vouched refl

deactivate_releases_example :
    Owns (some 1) issued taken
    × (laptop.machine_fingerprint ≡ "f1")
    × (Devices.is_none laptop.deactivated_at ≡ true)
    × (any (is_released 1) (deactivate 100 5 "d1" "f1" (some 1) taken []).1.devices ≡ true)
    × (0 ≡ active_count 5 (deactivate 100 5 "d1" "f1" (some 1) taken []).1.devices)
    × OnlyDevice 1 taken (deactivate 100 5 "d1" "f1" (some 1) taken []).1
unfolding deactivate owns_subscription active_device if_active Licenses.find_by_id
    Subscriptions.find_by_id Devices.find_by_license_and_device_id Devices.deactivate
    Devices.count_active_by_license Devices.is_none Devices.is_device_of Devices.is_active_of query
    exec fails later select find any update_where
deactivate_releases_example =
    deactivate_releases 100 5 "d1" "f1" (some 1) issued laptop taken [] 0 refl refl refl
