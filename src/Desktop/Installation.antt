-- ===== src/Desktop/Installation.antt =====
-- What an activation leaves in the local store (src/license/mod.rs, `activate`).
use bank_statement_processor.Prelude.{
  ℕ, String, Bool, true, false, some, ◌≡◌, refl, ◌∙◌, arith, ◌⊎◌, inl, inr, Bool-cases, ◌&&◌,
  str_eq,
}
use bank_statement_processor.Repository.Db.{Result, ok, err, Outages, fails}
use bank_statement_processor.Desktop.Offline.{LicenseStatus, status_from_server_response}
use bank_statement_processor.Desktop.Store.{
  Host, LocalLicenseRecord, DeviceInfo, Store, execute, insert_device_info, load_device_info,
  compute_integrity_hmac, save_local_license, get_or_create_device_info, log_validation,
}
use bank_statement_processor.Desktop.License.{
  ApiError, ActivateLicenseResponse, LicenseApiClient, Machine, activate_locally, activated_record,
  persist_activation, activate, activate_with, install, dev_test_license_key, dev_test_record,
}

module _ (host : Host) where
  -- The license that a store holds after an activation that reported `result`, when it held the one of `s`.
  abbrev pub Installed : ℕ → Store → Result ApiError LicenseStatus → Store → Type 0
  Installed now s (err e) s' = s'.local_license ≡ s.local_license
  Installed now s (ok status) s' =
      (r : LocalLicenseRecord) × (id : String) × (s'.local_license
        ≡ some (record { license = r; integrity_hmac = some (compute_integrity_hmac host r) }))
      × (r.license_id ≡ some id)
      × (status ≡ status_from_server_response r.status)
      × (r.last_validated_at ≡ some now)
      × (r.highest_seen_clock ≡ some now)

  log_keeps :
      (result detail : String) (online : Bool) (s : Store) (o : Outages)
      → (log_validation result online detail s o).1.local_license ≡ s.local_license
  unfolding log_validation execute
  log_keeps result detail online s o = ground arith

  device_keeps :
      (fresh : DeviceInfo) (s : Store) (o : Outages)
      → (get_or_create_device_info fresh s o).1.local_license ≡ s.local_license
  unfolding get_or_create_device_info load_device_info insert_device_info execute
  device_keeps fresh s o = ground arith

  saves :
      (r : LocalLicenseRecord) (s : Store) (o : Outages)
      → ((save_local_license host r s o).0 ≡ ok tt)
          × ((save_local_license host r s o).1.local_license
              ≡ some
                  (record { license = r; integrity_hmac = some (compute_integrity_hmac host r) }))
        ⊎ ((e : String) × ((save_local_license host r s o).0 ≡ err e)
            × ((save_local_license host r s o).1.local_license ≡ s.local_license))
  unfolding save_local_license execute
  saves r s o = elim (Bool-cases (fails o)) [
    | inl e ↦ rw e (inr (_, refl, refl))
    | inr e ↦ rw e (inl (refl, refl))
  ]

  locally_installs :
      (now : ℕ) (s : Store) (o : Outages)
      → let (result, s', o') = activate_locally host now s o in Installed now s result s'
  unfolding activate_locally dev_test_record status_from_server_response log_validation
      compute_integrity_hmac save_local_license execute
  locally_installs now s o = elim (saves (dev_test_record host now) s o) [
    | inl (e, l) ↦
        rw (Installed, e)
          (
            _,
            _,
            log_keeps "Active"
                  "dev/test license key activated locally (debug build only, no server contacted)"
                  false _ _
                ∙ l,
            refl,
            refl,
            refl,
            refl,
          )
    | inr (x, e, l) ↦ rw (Installed, e) l
  ]

  persist_installs :
      (now : ℕ) (license_key : String) (resp : ActivateLicenseResponse) (s : Store) (o : Outages)
      → let (result, s', o') = persist_activation host now license_key resp s o in
        Installed now s result s'
  unfolding persist_activation activated_record log_validation compute_integrity_hmac
      save_local_license execute
  persist_installs now license_key resp s o =
      elim (saves (activated_record host now license_key resp) s o) [
        | inl (e, l) ↦
            rw (Installed, e)
              (_, _, log_keeps _ "activation succeeded" true _ _ ∙ l, refl, refl, refl, refl)
        | inr (x, e, l) ↦ rw (Installed, e) l
      ]

  install_installs :
      (now : ℕ) (license_key : String) (answer : Result ApiError ActivateLicenseResponse)
      (s : Store) (o : Outages)
      → let (result, s', o') = install host now license_key answer s o in Installed now s result s'
  unfolding install
  install_installs now license_key (err e) s o = refl
  install_installs now license_key (ok resp) s o = persist_installs now license_key resp s o

  answered_installs :
      (machine : Machine) (api : LicenseApiClient) (license_key : String)
      (device : Result String DeviceInfo) (s : Store) (o : Outages)
      → let (result, s', o') = activate_with host machine api license_key device s o in
        Installed machine.now s result s'
  unfolding activate_with
  answered_installs machine api license_key (err e) s o = refl
  answered_installs machine api license_key (ok d) s o =
      install_installs machine.now license_key _ s o

  Installed-from :
      (now : ℕ) (s s' s'' : Store) (result : Result ApiError LicenseStatus)
      → s'.local_license ≡ s.local_license
      → Installed now s' result s''
      → Installed now s result s''
  Installed-from now s s' s'' (ok status) e i = i
  Installed-from now s s' s'' (err x) e i = i ∙ e

  -- An activation, whichever statements of the local database fail. When it reports an error, the stored
  -- license is the one that was stored before. When it reports a status, a sealed license with an id is
  -- stored, the status is the one that its text stands for, and it counts as validated now.
  pub activate_installs :
      (machine : Machine) (api : LicenseApiClient) (license_key : String) (s : Store) (o : Outages)
      → let (result, s', o') = activate host machine api license_key s o in
        Installed machine.now s result s'
  unfolding activate
  activate_installs machine api license_key s o =
      elim (Bool-cases
        (machine.debug_assertions && str_eq (host.trim license_key) dev_test_license_key)) [
          | inl e ↦ rw e (locally_installs machine.now s o)
          | inr e ↦ rw e (
              Installed-from machine.now s (get_or_create_device_info machine.fresh s o).1 _ _
                (device_keeps machine.fresh s o) (answered_installs machine api license_key _ _ _))
        ]
