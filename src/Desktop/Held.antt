-- ===== src/Desktop/Held.antt =====
-- A check of the license when every statement of the local database succeeds and a sealed license is
-- stored (src/license/mod.rs, src/license/storage.rs).
use bank_statement_processor.Prelude.{
  ℕ, String, true, false, Option, some, List, [], ◌∷◌, ◌≡◌, refl, ap, ◌∙◌, inl, inr, arith, str_eq,
  eq_iff, Bool-cases, Option-cases, if◌then◌else◌,
}
use bank_statement_processor.Repository.Db.{ok, err, fails, later}
use bank_statement_processor.Desktop.Offline.{
  LicenseStatus, status_from_server_response, advance_clock_watermark,
}
use bank_statement_processor.Desktop.Store.{
  Host, LocalLicenseRecord, DeviceInfo, Store, not_activated, LogEntry, execute,
  compute_integrity_hmac, check_seal, load_local_license, save_local_license, store_watermark,
  advance_from, should_advance, load_device_info, get_or_create_device_info, log_validation,
}
use bank_statement_processor.Desktop.License.{
  ApiError, ValidateLicenseResponse, LicenseApiClient, Machine, request, accept_answer,
  offline_status, fall_back, check_online, check_device, check_activated, check_loaded,
  check_status, block, parse_expiry, debug_text, clear_local_activation, blocked, describe,
  is_revoked,
}

str_eq_refl : (s : String) → str_eq s s ≡ true
str_eq_refl s = (eq_iff s s).1 refl

abbrev pub online_entry : LicenseStatus → LogEntry
online_entry status = record {
  result = debug_text status;
  online = true;
  detail = "server validation succeeded";
}

abbrev pub offline_entry : LicenseStatus → LogEntry
offline_entry status = record {
  result = debug_text status;
  online = false;
  detail = "offline or server unreachable";
}

module _ (host : Host) where
  -- A store that holds the license `r` under its seal, and the identity of the device.
  unfoldable pub holding : LocalLicenseRecord → DeviceInfo → List LogEntry → Store
  holding r device log = record {
    local_license =
        some (record { license = r; integrity_hmac = some (compute_integrity_hmac host r) });
    device_info = some device;
    license_validation_log = log;
  }

  -- The record after the watermark was advanced.
  unfoldable pub seen : ℕ → LocalLicenseRecord → LocalLicenseRecord
  seen now r =
      if should_advance now r.highest_seen_clock
      then record r { highest_seen_clock = some now }
      else r

  pub load-holding :
      (r : LocalLicenseRecord) (device : DeviceInfo) (log : List LogEntry)
      → load_local_license host (holding r device log) [] ≡ (ok (some r), holding r device log, [])
  unfolding load_local_license execute holding check_seal fails later
  load-holding r device log = rw (str_eq_refl (compute_integrity_hmac host r)) refl

  pub save-holding :
      (r' r : LocalLicenseRecord) (device : DeviceInfo) (log : List LogEntry)
      → save_local_license host r' (holding r device log) [] ≡ (ok tt, holding r' device log, [])
  unfolding save_local_license execute fails later holding
  save-holding r' r device log = refl

  advance-holding :
      (now : ℕ) (r : LocalLicenseRecord) (device : DeviceInfo) (log : List LogEntry)
      → advance_from host now (ok (some r)) (holding r device log) []
        ≡ (ok tt, holding (seen now r) device log, [])
  unfolding advance_from seen
  advance-holding now r device log = elim (Bool-cases (should_advance now r.highest_seen_clock)) [
    | inl e ↦ rw e (save-holding _ r device log)
    | inr e ↦ rw e refl
  ]

  device-holding :
      (fresh : DeviceInfo) (r : LocalLicenseRecord) (device : DeviceInfo) (log : List LogEntry)
      → get_or_create_device_info fresh (holding r device log) []
        ≡ (ok device, holding r device log, [])
  unfolding get_or_create_device_info load_device_info execute fails later holding
  device-holding fresh r device log = refl

  pub license_id-seen : (now : ℕ) (r : LocalLicenseRecord) → (seen now r).license_id ≡ r.license_id
  unfolding seen
  license_id-seen now r = elim (Bool-cases (should_advance now r.highest_seen_clock)) [
    | inl e ↦ rw e refl
    | inr e ↦ rw e refl
  ]

  activated-holding :
      (machine : Machine) (api : LicenseApiClient) (r : LocalLicenseRecord) (o : Option String)
      (id : String) (device : DeviceInfo) (log : List LogEntry)
      → o ≡ some id
      → check_activated host machine api r o (holding r device log) []
        ≡ check_online host machine api r id device (holding r device log) []
  unfolding check_activated check_device
  activated-holding machine api r o id device log h =
      ap (λ i. check_activated host machine api r i (holding r device log) []) h
      ∙ rw (device-holding machine.fresh r device log) refl

  -- A check comes to one request for the stored license.
  checked-holding :
      (machine : Machine) (api : LicenseApiClient) (r : LocalLicenseRecord) (id : String)
      (device : DeviceInfo) (log : List LogEntry)
      → r.license_id ≡ some id
      → check_status host machine api (holding r device log) []
        ≡ check_online host machine api
            (seen machine.now r)
            id
            device
            (holding (seen machine.now r) device log)
            []
  unfolding check_status store_watermark check_loaded
  checked-holding machine api r id device log h =
      let r' = seen machine.now r in
      rw
        (
          load-holding r device log,
          advance-holding machine.now r device log,
          load-holding r' device log,
        )
        (activated-holding machine api r' r'.license_id id device log
          (license_id-seen machine.now r ∙ h))

  -- The record after an answer of the server.
  unfoldable pub answered : ℕ → ValidateLicenseResponse → LocalLicenseRecord → LocalLicenseRecord
  answered now resp r = record (seen now r) {
    status = resp.status;
    expires_at = parse_expiry host resp.expires_at;
    grace_period_days = resp.grace_period_days;
    last_validated_at = some now;
  }

  log-holding :
      (entry : LogEntry) (r : LocalLicenseRecord) (device : DeviceInfo) (log : List LogEntry)
      → log_validation entry.result entry.online entry.detail (holding r device log) []
        ≡ (ok tt, holding r device (entry ∷ log), [])
  unfolding log_validation execute fails later holding
  log-holding entry r device log = refl

  -- The server answers the check.
  pub accepted-holding :
      (machine : Machine) (api : LicenseApiClient) (r : LocalLicenseRecord) (id : String)
      (device : DeviceInfo) (log : List LogEntry) (resp : ValidateLicenseResponse)
      → r.license_id ≡ some id
      → api.validate_license (request host machine id device) ≡ ok resp
      → check_status host machine api (holding r device log) [] ≡ (
        status_from_server_response resp.status,
        holding
            (answered machine.now resp r)
            device
            (online_entry (status_from_server_response resp.status) ∷ log),
        [],
      )
  unfolding check_online accept_answer answered
  accepted-holding machine api r id device log resp h e =
      let r' = seen machine.now r in
      let a = answered machine.now resp r in
      rw
        (
          checked-holding machine api r id device log h,
          e,
          check_online,
          save-holding a r' device log,
          log-holding (online_entry (status_from_server_response resp.status)) a device log,
        )
        refl

  -- The server does not answer the check.
  pub fallen-holding :
      (machine : Machine) (api : LicenseApiClient) (r : LocalLicenseRecord) (id : String)
      (device : DeviceInfo) (log : List LogEntry) (x : ApiError)
      → r.license_id ≡ some id
      → api.validate_license (request host machine id device) ≡ err x
      → check_status host machine api (holding r device log) [] ≡ (
        offline_status host machine.now (seen machine.now r),
        holding
            (seen machine.now r)
            device
            (offline_entry (offline_status host machine.now (seen machine.now r)) ∷ log),
        [],
      )
  unfolding check_online fall_back
  fallen-holding machine api r id device log x h e =
      let r' = seen machine.now r in
      rw
        (
          checked-holding machine api r id device log h,
          e,
          check_online,
          log-holding (offline_entry (offline_status host machine.now r')) r' device log,
        )
        refl

  pub block-holding :
      (status : LicenseStatus) (r : LocalLicenseRecord) (device : DeviceInfo) (log : List LogEntry)
      → r.status ≡ "revoked"
      → block host status (holding r device log) []
        ≡ (blocked (describe host status (some r)) true, holding not_activated device log, [])
  unfolding block is_revoked clear_local_activation
  block-holding status r device log h =
      rw
        (
          load-holding r device log,
          (eq_iff r.status "revoked").1 h,
          save-holding not_activated r device log,
        )
        refl

  pub block-holding_kept :
      (status : LicenseStatus) (r : LocalLicenseRecord) (device : DeviceInfo) (log : List LogEntry)
      → str_eq r.status "revoked" ≡ false
      → block host status (holding r device log) []
        ≡ (blocked (describe host status (some r)) false, holding r device log, [])
  unfolding block is_revoked
  block-holding_kept status r device log h = rw (load-holding r device log, h) refl

  pub seen_keeps :
      (now : ℕ) (r : LocalLicenseRecord)
      → ((seen now r).status ≡ r.status)
        × ((seen now r).grace_period_days ≡ r.grace_period_days)
        × ((seen now r).last_validated_at ≡ r.last_validated_at)
  unfolding seen
  seen_keeps now r = elim (Bool-cases (should_advance now r.highest_seen_clock)) [
    | inl e ↦ rw e (refl, refl, refl)
    | inr e ↦ rw e (refl, refl, refl)
  ]

  pub highest-seen :
      (now : ℕ) (r : LocalLicenseRecord)
      → (seen now r).highest_seen_clock ≡ advance_clock_watermark r.highest_seen_clock now
  unfolding seen should_advance advance_clock_watermark
  highest-seen now r = elim (Option-cases r.highest_seen_clock) [
    | inl e ↦ ground (arith, e)
    | inr (w, e) ↦ ground (arith, e)
  ]
