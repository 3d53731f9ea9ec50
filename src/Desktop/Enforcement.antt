-- ===== src/Desktop/Enforcement.antt =====
-- When the desktop program may run (src/license/mod.rs, `enforce`).
use bank_statement_processor.Prelude.{
  ℕ, String, true, Option, none, some, ◌≡◌, ◌≢◌, refl, ◌⊎◌, inl, inr, arith, eq_iff, Bool-cases,
}
use bank_statement_processor.Repository.Db.{Result, ok, err, Result-cases, Outages}
use bank_statement_processor.Desktop.Offline.{LicenseStatus, is_licensed, derive_offline_status}
use bank_statement_processor.Desktop.Grace.{server_licensed_iff}
use bank_statement_processor.Desktop.Store.{
  Host, LocalLicenseRecord, DeviceInfo, Store, load_local_license, store_watermark,
}
use bank_statement_processor.Desktop.License.{
  ApiError, ValidateLicenseResponse, LicenseApiClient, Machine, allowed, request, accept_answer,
  offline_status, fall_back, check_online, check_device, check_activated, check_loaded,
  check_status, block, enforce,
}

module _ (host : Host) where
  -- What speaks for a license: the server confirms it as active, or the request ends in an error of any
  -- kind (of the network, or a refusal by the server), the stored status is neither a revocation nor a
  -- suspension, and the offline grace applies.
  abbrev pub Vouched :
      Machine → LicenseApiClient → LocalLicenseRecord → String → DeviceInfo → Type 0
  Vouched machine api r license_id device =
      ((resp : ValidateLicenseResponse) × (api.validate_license
            (request host machine license_id device)
          ≡ ok resp)
        × (resp.status ≡ "active"))
      ⊎ ((e : ApiError) × (api.validate_license (request host machine license_id device) ≡ err e)
          × (r.status ≢ "revoked")
          × (r.status ≢ "suspended")
          × (is_licensed (
                derive_offline_status r.grace_period_days r.last_validated_at r.highest_seen_clock
                  machine.now)
              ≡ true))

  pub offline_vouched :
      (now : ℕ) (r : LocalLicenseRecord)
      → is_licensed (offline_status host now r) ≡ true
      → (r.status ≢ "revoked")
        × (r.status ≢ "suspended")
        × (is_licensed (
              derive_offline_status r.grace_period_days r.last_validated_at r.highest_seen_clock
                now)
            ≡ true)
  unfolding offline_status is_licensed
  offline_vouched now r h = ground (arith, eq_iff r.status "revoked", eq_iff r.status "suspended")

  online-Vouched :
      (machine : Machine) (api : LicenseApiClient) (r : LocalLicenseRecord) (license_id : String)
      (device : DeviceInfo) (s : Store) (o : Outages)
      → is_licensed (check_online host machine api r license_id device s o).0 ≡ true
      → Vouched machine api r license_id device
  unfolding accept_answer fall_back check_online is_licensed
  online-Vouched machine api r license_id device s o h =
      elim (Result-cases (api.validate_license (request host machine license_id device))) [
        | inl (resp, e) ↦
            (let h' = rw (e, check_online) at h in
              inl (resp, e, (server_licensed_iff resp.status).0 h'))
        | inr (x, e) ↦
            (let h' = rw (e, check_online) at h in
              let (a, b, c) = offline_vouched machine.now r h' in inr (x, e, a, b, c))
      ]

  device-Vouched :
      (machine : Machine) (api : LicenseApiClient) (r : LocalLicenseRecord) (id : String)
      (device : Result String DeviceInfo) (s : Store) (o : Outages)
      → is_licensed (check_device host machine api r id device s o).0 ≡ true
      → (d : DeviceInfo) × Vouched machine api r id d
  unfolding check_device is_licensed
  device-Vouched machine api r id (ok d) s o h = (d, online-Vouched machine api r id d s o h)
  device-Vouched machine api r id (err e) s o h = absurd (ground arith)

  activated-Vouched :
      (machine : Machine) (api : LicenseApiClient) (r : LocalLicenseRecord) (id : Option String)
      (s : Store) (o : Outages)
      → is_licensed (check_activated host machine api r id s o).0 ≡ true
      → (i : String) × (d : DeviceInfo) × (id ≡ some i) × Vouched machine api r i d
  unfolding check_activated is_licensed
  activated-Vouched machine api r none s o h = absurd (ground arith)
  activated-Vouched machine api r (some i) s o h =
      let (d, v) = device-Vouched machine api r i _ _ _ h in (i, d, refl, v)

  -- What the program reads as its license when it makes its check.
  abbrev pub Stored : Machine → LocalLicenseRecord → Store → Outages → Type 0
  Stored machine r s o =
      let (u, s', o') = store_watermark host machine.now s o in
      (load_local_license host s' o').0 ≡ ok (some r)

  loaded-Vouched :
      (machine : Machine) (api : LicenseApiClient)
      (loaded : Result String (Option LocalLicenseRecord)) (s : Store) (o : Outages)
      → is_licensed (check_loaded host machine api loaded s o).0 ≡ true
      → (r : LocalLicenseRecord) × (id : String) × (d : DeviceInfo) × (loaded ≡ ok (some r))
        × (r.license_id ≡ some id)
        × Vouched machine api r id d
  unfolding check_loaded is_licensed
  loaded-Vouched machine api (ok (some r)) s o h =
      let (i, d, e, v) = activated-Vouched machine api r r.license_id s o h in (r, i, d, refl, e, v)
  loaded-Vouched machine api (ok none) s o h = absurd (ground arith)
  loaded-Vouched machine api (err x) s o h = absurd (ground arith)

  pub blocked_not_allowed :
      (status : LicenseStatus) (s : Store) (o : Outages) → (block host status s o).0 ≢ allowed
  unfolding block
  blocked_not_allowed status s o h = ground arith

  -- What a run requires. Whatever statements of the local database fail, the program is allowed to run
  -- only if a license is stored that passes its integrity check and names a license id, and for it
  -- either the server answers "active", or the request for a validation ends in an error of any kind (a
  -- definitive refusal by the server counts like a failure of the network), the stored status is
  -- neither "revoked" nor "suspended", and the offline grace period holds.
  pub enforce_fails_closed :
      (machine : Machine) (api : LicenseApiClient) (s : Store) (o : Outages)
      → (enforce host machine api s o).0 ≡ allowed
      → (r : LocalLicenseRecord) × (id : String) × (d : DeviceInfo) × Stored machine r s o
        × (r.license_id ≡ some id)
        × Vouched machine api r id d
  unfolding enforce check_status
  enforce_fails_closed machine api s o h =
      elim (Bool-cases (is_licensed (check_status host machine api s o).0)) [
        | inl e ↦ loaded-Vouched machine api _ _ _ e
        | inr e ↦ absurd (blocked_not_allowed _ _ _ (rw e at h))
      ]
