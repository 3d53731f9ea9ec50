-- ===== src/Licensing/Entitlement.antt =====
-- What an answer of the license service vouches for (server/src/service/license_service.rs).
use bank_statement_processor.Prelude.{
  ℕ, String, true, Option, none, some, ◌≡◌, inl, inr, ◌==◌, arith, eq_iff, find,
}
use bank_statement_processor.Domain.Records.{License, Device}
use bank_statement_processor.Repository.Db.{
  ok, Result-cases, Tables, Outages, query, exec, continue_cmd,
}
use bank_statement_processor.Repository.Licenses
use bank_statement_processor.Repository.Subscriptions
use bank_statement_processor.Repository.Devices
use bank_statement_processor.Repository.Devices.{is_none, is_device_of}
use bank_statement_processor.Repository.Audit.{record_validation}
use bank_statement_processor.Licensing.Service.{
  ValidationOutcome, effective_status, if_active, owns_subscription, active_device,
  find_active_device, validate,
}

-- The session's user, if there is one, holds the license's subscription.
abbrev pub Owns : {V : Type 0} → Option ℕ → License → Tables V → Type 0
Owns none l t = Unit
Owns (some user_id) l t = elim (find (λ s. s.id == l.subscription_id) t.subscriptions) [
  | none ↦ ⊥
  | some s ↦ s.user_id ≡ user_id
]

-- The license and the device of a request.
pub record Entitled {V : Type 0} (license_id : ℕ) (device_id : String) (user : Option ℕ)
    (t : Tables V) (l : License) (d : Device) : Type 0 where
  pub license : find (λ l. l.id == license_id) t.licenses ≡ some l
  pub owner : Owns user l t
  pub device : find (is_device_of l.id device_id) t.devices ≡ some d
  pub active : is_none d.deactivated_at ≡ true

module _ {V : Type 0} where
  find_active_device-Entitled :
      (license_id : ℕ) (device_id : String) (user : Option ℕ) (t : Tables V) (o : Outages)
      (l : License) (d : Device)
      → (find_active_device license_id device_id user t o).0 ≡ ok (l, d)
      → Entitled license_id device_id user t l d
        × ((find_active_device license_id device_id user t o).1 ≡ t)
  unfolding find_active_device owns_subscription active_device if_active Licenses.find_by_id
      Subscriptions.find_by_id Devices.find_by_license_and_device_id query
  find_active_device-Entitled license_id device_id none t o l d h = ground arith
  find_active_device-Entitled license_id device_id (some u) t o l d h = ground arith

  validate_checked :
      (now license_id : ℕ) (device_id fingerprint : String) (user : Option ℕ) (t : Tables V)
      (o : Outages) (l : License) (d : Device) (outcome : ValidationOutcome)
      → (find_active_device license_id device_id user t o).0 ≡ ok (l, d)
      → (validate now license_id device_id fingerprint user t o).0 ≡ ok outcome
      → (d.machine_fingerprint ≡ fingerprint)
        × (outcome.status ≡ effective_status now l)
        × (outcome.expires_at ≡ l.expires_at)
  unfolding validate Devices.touch_last_seen exec record_validation
  validate_checked now license_id device_id fingerprint user t o l d outcome f h =
      let h' = rw (f, continue_cmd) at h in ground (arith, eq_iff d.machine_fingerprint fingerprint)

  validate_found :
      (now license_id : ℕ) (device_id fingerprint : String) (user : Option ℕ) (t : Tables V)
      (o : Outages) (outcome : ValidationOutcome)
      → (validate now license_id device_id fingerprint user t o).0 ≡ ok outcome
      → (found : License × Device) × ((find_active_device license_id device_id user t o).0
          ≡ ok found)
  unfolding validate
  validate_found now license_id device_id fingerprint user t o outcome h =
      elim (Result-cases (find_active_device license_id device_id user t o).0) [
        | inl found ↦ found
        | inr (x, e) ↦ (let h' = rw (e, continue_cmd) at h in absurd (cc))
      ]

  -- A validation that succeeds vouches for a license and a device of that license: the license has the
  -- requested id, belongs to the session's user if there is a session, and the device row of the
  -- requested id is active and carries the presented fingerprint. The status it reports is the
  -- license's effective status at that time, and the expiry is the license's.
  pub validate_entitles :
      (now license_id : ℕ) (device_id fingerprint : String) (user : Option ℕ) (t : Tables V)
      (o : Outages) (outcome : ValidationOutcome)
      → (validate now license_id device_id fingerprint user t o).0 ≡ ok outcome
      → (l : License) × (d : Device) × Entitled license_id device_id user t l d
        × (d.machine_fingerprint ≡ fingerprint)
        × (outcome.status ≡ effective_status now l)
        × (outcome.expires_at ≡ l.expires_at)
  validate_entitles now license_id device_id fingerprint user t o outcome h =
      let ((l, d), f) = validate_found now license_id device_id fingerprint user t o outcome h in
      let (same, status, expiry) =
        validate_checked now license_id device_id fingerprint user t o l d outcome f h in
      (
        l,
        d,
        (find_active_device-Entitled license_id device_id user t o l d f).0,
        same,
        status,
        expiry,
      )
