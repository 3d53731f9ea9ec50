-- ===== src/Licensing/Activation.antt =====
-- What a successful activation of a device guarantees, and what a refused one leaves alone
-- (server/src/service/license_service.rs, `activate`).
use bank_statement_processor.Prelude.{
  ℕ, String, true, none, some, List, ◌≡◌, ◌≢◌, inl, inr, arith, str_eq, find, any, Option-cases,
}
use bank_statement_processor.Domain.Status.{LicenseRecordStatus}
use bank_statement_processor.Domain.Records.{License, Device}
use bank_statement_processor.Repository.Db.{ok, err, Tables, Outages, query, later}
use bank_statement_processor.Repository.Licenses
use bank_statement_processor.Repository.Subscriptions
use bank_statement_processor.Repository.Activation.{
  is_bound, activate_device-bound, activate_device-refused,
}
use bank_statement_processor.Repository.Audit.{record_validation, insert_validation}
use bank_statement_processor.Licensing.Service.{
  device_limit_reached, ActivationOutcome, effective_status, activate, activate_on,
}

module _ {V : Type 0} where
  activate_on-bound :
      (now : ℕ) (l : License) (device_id fingerprint label : String) (t : Tables V) (o : Outages)
      (outcome : ActivationOutcome)
      → (activate_on now l device_id fingerprint label t o).0 ≡ ok outcome
      → (outcome.license ≡ l)
        × (any
              (is_bound l.id device_id fingerprint)
              (activate_on now l device_id fingerprint label t o).1.devices
            ≡ true)
  unfolding activate_on Subscriptions.find_by_id query record_validation insert_validation
  activate_on-bound now l device_id fingerprint label t o outcome h =
      ground (arith, activate_device-bound l.id l.max_devices device_id fingerprint label now t o)

  activate_on-unchanged :
      (now : ℕ) (l : License) (device_id fingerprint label : String) (t : Tables V) (o : Outages)
      (existing : List Device)
      → (activate_on now l device_id fingerprint label t o).0 ≡ err (device_limit_reached existing)
      → (activate_on now l device_id fingerprint label t o).1 ≡ t
  unfolding activate_on Subscriptions.find_by_id query record_validation insert_validation
  activate_on-unchanged now l device_id fingerprint label t o existing h = ground (
    arith,
    activate_device-refused l.id l.max_devices device_id fingerprint label now existing t o,
  )

  activate_found :
      (now : ℕ) (key device_id fingerprint label : String) (t : Tables V) (o : Outages)
      (l : License) (outcome : ActivationOutcome)
      → find (λ l. str_eq l.license_key key) t.licenses ≡ some l
      → (activate now key device_id fingerprint label t o).0 ≡ ok outcome
      → (outcome.license ≡ l)
        × (effective_status now l ≢ LicenseRecordStatus.revoked)
        × (effective_status now l ≢ LicenseRecordStatus.expired)
        × (any
              (is_bound l.id device_id fingerprint)
              (activate now key device_id fingerprint label t o).1.devices
            ≡ true)
  unfolding activate Licenses.find_by_key query record_validation
  activate_found now key device_id fingerprint label t o l outcome f h =
      ground (arith, activate_on-bound now l device_id fingerprint label t (later o) outcome)

  activate_unknown :
      (now : ℕ) (key device_id fingerprint label : String) (t : Tables V) (o : Outages)
      (outcome : ActivationOutcome)
      → find (λ l. str_eq l.license_key key) t.licenses ≡ none
      → (activate now key device_id fingerprint label t o).0 ≢ ok outcome
  unfolding activate Licenses.find_by_key query
  activate_unknown now key device_id fingerprint label t o outcome f h = ground arith

  -- An activation that succeeds does so for the license that its key names, which is in effect neither
  -- revoked nor expired, and afterwards the device is active on that license with the presented
  -- fingerprint.
  pub activate_entitles :
      (now : ℕ) (key device_id fingerprint label : String) (t : Tables V) (o : Outages)
      (outcome : ActivationOutcome)
      → (activate now key device_id fingerprint label t o).0 ≡ ok outcome
      → (find (λ l. str_eq l.license_key key) t.licenses ≡ some outcome.license)
        × (effective_status now outcome.license ≢ LicenseRecordStatus.revoked)
        × (effective_status now outcome.license ≢ LicenseRecordStatus.expired)
        × (any
              (is_bound outcome.license.id device_id fingerprint)
              (activate now key device_id fingerprint label t o).1.devices
            ≡ true)
  activate_entitles now key device_id fingerprint label t o outcome h =
      elim (Option-cases (find (λ l. str_eq l.license_key key) t.licenses)) [
        | inl e ↦ absurd (activate_unknown now key device_id fingerprint label t o outcome e h)
        | inr (l, e) ↦
            (let (same, a, b, c) =
                activate_found now key device_id fingerprint label t o l outcome e h in
              rw same (e, a, b, c))
      ]

  -- An activation that is refused because the limit is reached leaves every table as it is.
  activate_refused_unchanged :
      (now : ℕ) (key device_id fingerprint label : String) (t : Tables V) (o : Outages)
      (existing : List Device)
      → (activate now key device_id fingerprint label t o).0 ≡ err (device_limit_reached existing)
      → (activate now key device_id fingerprint label t o).1 ≡ t
  unfolding activate Licenses.find_by_key query record_validation
  activate_refused_unchanged now key device_id fingerprint label t o existing h =
      elim (Option-cases (find (λ l. str_eq l.license_key key) t.licenses)) [
        | inl e ↦ ground arith
        | inr (l, e) ↦
            ground
              (arith, activate_on-unchanged now l device_id fingerprint label t (later o) existing)
      ]
