-- ===== src/Desktop/License.antt =====
-- Checking, enforcing and activating the license of the desktop program (src/license/mod.rs;
-- src/license/client.rs for the requests and answers).
use bank_statement_processor.Prelude.{
  ℕ, String, Bool, true, false, not, Option, none, some, str_eq, ◌||◌, ◌&&◌, if◌then◌else◌,
}
use Prim.Native.String.{◌++◌}
use bank_statement_processor.Prelude.Int.{ℤ, pos}
use bank_statement_processor.Repository.Db.{Result, ok, err}
use bank_statement_processor.Desktop.Offline.{
  LicenseStatus, active, active_offline_grace, grace_period_expired, suspended, expired,
  is_licensed, derive_offline_status, status_from_server_response,
}
use bank_statement_processor.Desktop.Store.{
  Host, LocalLicenseRecord, DeviceInfo, Store, Local, return, ◌>>=◌, ◌>>◌, decimal_ℤ,
  load_local_license, save_local_license, store_watermark, get_or_create_device_info,
  log_validation,
}
use bank_statement_processor.Desktop.Store

pub data ApiError : Type 0 where
  no_server_configured invalid_credentials unauthorized license_not_found : ApiError
  device_not_activated device_limit_reached license_expired license_revoked : ApiError
  license_suspended rate_limited : ApiError
  network_error server_error : String → ApiError

pub record ValidateLicenseRequest : Type 0 where
  pub license_id : String
  pub device_id : String
  pub machine_fingerprint : String
  pub client_clock : String

pub record ValidateLicenseResponse : Type 0 where
  pub status : String
  pub expires_at : Option String
  pub grace_period_days : ℤ
  pub server_time : String
  pub fingerprint_matched : Bool

pub record ActivateLicenseRequest : Type 0 where
  pub license_key : String
  pub device_id : String
  pub machine_fingerprint : String
  pub device_label : String

pub record ActivateLicenseResponse : Type 0 where
  pub license_id : String
  pub customer_id : String
  pub subscription_type : String
  pub status : String
  pub expires_at : Option String
  pub grace_period_days : ℤ

-- The server, as it answers during one call.
pub record LicenseApiClient : Type 0 where
  pub validate_license : ValidateLicenseRequest → Result ApiError ValidateLicenseResponse
  pub activate_license : ActivateLicenseRequest → Result ApiError ActivateLicenseResponse

-- What a call takes from the machine: the clock, an identity to use if there is none yet, the name of
-- the computer, and whether this is a debug build.
pub record Machine : Type 0 where
  pub now : ℕ
  pub fresh : DeviceInfo
  pub computer_name : String
  pub debug_assertions : Bool

pub data EnforcementOutcome : Type 0 where
  allowed : EnforcementOutcome
  blocked : String → Bool → EnforcementOutcome

abbrev pub should_enforce : Bool
should_enforce = true

-- `{status:?}`
unfoldable pub debug_text : LicenseStatus → String
debug_text LicenseStatus.not_activated = "NotActivated"
debug_text active = "Active"
debug_text (active_offline_grace d) =
    "ActiveOfflineGrace { days_remaining: " ++ (decimal_ℤ d ++ " }")
debug_text grace_period_expired = "GracePeriodExpired"
debug_text suspended = "Suspended"
debug_text expired = "Expired"

abbrev pub dev_test_license_key : String
dev_test_license_key = "DEV-BSP-TEST-0001"

abbrev pub unknown_plan : Option String → String
unknown_plan none = "unknown plan"
unknown_plan (some tier) = tier

abbrev pub tier_of : Option LocalLicenseRecord → String
tier_of none = "unknown plan"
tier_of (some r) = unknown_plan r.subscription_type

abbrev pub expiry_of : Option LocalLicenseRecord → Option ℕ
expiry_of none = none
expiry_of (some r) = r.expires_at

abbrev pub activation_request : Machine → String → DeviceInfo → ActivateLicenseRequest
activation_request machine license_key device = record {
  license_key = license_key;
  device_id = device.device_id;
  machine_fingerprint = device.machine_fingerprint;
  device_label = machine.computer_name;
}

module _ (host : Host) where
  open host use {to_rfc3339, format_date}

  unfoldable pub describe : LicenseStatus → Option LocalLicenseRecord → String
  describe LicenseStatus.not_activated r = "Not activated. Enter a license key below to activate."
  describe active r = elim (expiry_of r) [
    | some e ↦ "Active (" ++ (tier_of r ++ (") — valid until " ++ (format_date e ++ ".")))
    | none ↦ "Active (" ++ (tier_of r ++ ").")
  ]
  describe (active_offline_grace d) r =
      "Active ("
      ++ (tier_of r
          ++ (") — running offline, "
              ++ (decimal_ℤ d ++ " day(s) left before revalidation is required.")))
  describe grace_period_expired r =
      "Offline grace period has expired. Connect to the internet to revalidate, or renew your subscription."
  describe suspended r =
      "Suspended (e.g. a payment issue). Contact support to resolve — no reactivation needed once resolved."
  describe expired r = "Expired. Renew your subscription and activate the new license key below."

  -- The private helper of the source: a text that is no instant counts as none.
  abbrev pub parse_expiry : Option String → Option ℕ
  parse_expiry none = none
  parse_expiry (some s) = host.parse_rfc3339 s

  -- The server answered.
  unfoldable pub accept_answer :
      ℕ → LocalLicenseRecord → ValidateLicenseResponse → Local LicenseStatus
  accept_answer now r resp = do
    let status = status_from_server_response resp.status
    save_local_license host (record r {
      status = resp.status;
      expires_at = parse_expiry resp.expires_at;
      grace_period_days = resp.grace_period_days;
      last_validated_at = some now;
    })
    log_validation (debug_text status) true "server validation succeeded"
    return status

  unfoldable pub offline_status : ℕ → LocalLicenseRecord → LicenseStatus
  offline_status now r =
      if str_eq r.status "revoked" || str_eq r.status "suspended"
      then grace_period_expired
      else derive_offline_status r.grace_period_days r.last_validated_at r.highest_seen_clock now

  unfoldable pub fall_back : ℕ → LocalLicenseRecord → Local LicenseStatus
  fall_back now r = do
    log_validation (debug_text (offline_status now r)) false "offline or server unreachable"
    return (offline_status now r)

  abbrev pub request : Machine → String → DeviceInfo → ValidateLicenseRequest
  request machine license_id device = record {
    license_id = license_id;
    device_id = device.device_id;
    machine_fingerprint = device.machine_fingerprint;
    client_clock = to_rfc3339 machine.now;
  }

  unfoldable pub check_online :
      Machine → LicenseApiClient → LocalLicenseRecord → String → DeviceInfo → Local LicenseStatus
  check_online machine api r license_id device =
      elim (api.validate_license (request machine license_id device)) [
        | ok resp ↦ accept_answer machine.now r resp
        | err e ↦ fall_back machine.now r
      ]

  unfoldable pub check_device :
      Machine
      → LicenseApiClient
      → LocalLicenseRecord
      → String
      → Result String DeviceInfo
      → Local LicenseStatus
  check_device machine api r license_id (ok device) = check_online machine api r license_id device
  check_device machine api r license_id (err e) = do
    log_validation "GracePeriodExpired" false ("failed to read device identity: " ++ e)
    return grace_period_expired

  unfoldable pub check_activated :
      Machine → LicenseApiClient → LocalLicenseRecord → Option String → Local LicenseStatus
  check_activated machine api r none = do
    log_validation "NotActivated" false "record exists but was never activated"
    return LicenseStatus.not_activated
  check_activated machine api r (some license_id) = do
    device ← get_or_create_device_info machine.fresh
    check_device machine api r license_id device

  unfoldable pub check_loaded :
      Machine → LicenseApiClient → Result String (Option LocalLicenseRecord) → Local LicenseStatus
  check_loaded machine api (ok (some r)) = check_activated machine api r r.license_id
  check_loaded machine api (ok none) = do
    log_validation "NotActivated" false "no local license record"
    return LicenseStatus.not_activated
  check_loaded machine api (err e) = do
    log_validation "GracePeriodExpired" false ("failed to read local license state: " ++ e)
    return grace_period_expired

  unfoldable pub check_status : Machine → LicenseApiClient → Local LicenseStatus
  check_status machine api = do
    store_watermark host machine.now
    loaded ← load_local_license host
    check_loaded machine api loaded

  unfoldable pub clear_local_activation : Local (Result String Unit)
  clear_local_activation = save_local_license host Store.not_activated

  -- `.ok().flatten()`
  abbrev pub cached : Result String (Option LocalLicenseRecord) → Option LocalLicenseRecord
  cached (ok r) = r
  cached (err e) = none

  unfoldable pub is_revoked : Option LocalLicenseRecord → Bool
  is_revoked none = false
  is_revoked (some r) = str_eq r.status "revoked"

  unfoldable pub block : LicenseStatus → Local EnforcementOutcome
  block status = do
    loaded ← load_local_license host
    let r = cached loaded
    if is_revoked r
        then (do clear_local_activation; return (blocked (describe status r) true))
        else return (blocked (describe status r) false)

  unfoldable pub enforce : Machine → LicenseApiClient → Local EnforcementOutcome
  enforce machine api = do
    status ← check_status machine api
    if not should_enforce || is_licensed status then return allowed else block status

  unfoldable pub dev_test_record : ℕ → LocalLicenseRecord
  dev_test_record now = record {
    customer_id = some "dev_test_customer";
    license_id = some "dev_test_license";
    license_key = some dev_test_license_key;
    subscription_type = some "lifetime (dev/test)";
    status = "active";
    expires_at = none;
    last_validated_at = some now;
    grace_period_days = pos 3650;
    highest_seen_clock = some now;
  }

  unfoldable pub activate_locally : ℕ → Local (Result ApiError LicenseStatus)
  activate_locally now = do
    saved ← save_local_license host (dev_test_record now)
    elim saved [
      | err e ↦ return (
          err (server_error ("dev/test activation succeeded but failed to persist locally: " ++ e)))
      | ok u ↦ do
        log_validation "Active" false
            "dev/test license key activated locally (debug build only, no server contacted)"
        return (ok active)
    ]

  unfoldable pub activated_record : ℕ → String → ActivateLicenseResponse → LocalLicenseRecord
  activated_record now license_key resp = record {
    customer_id = some resp.customer_id;
    license_id = some resp.license_id;
    license_key = some license_key;
    subscription_type = some resp.subscription_type;
    status = resp.status;
    expires_at = parse_expiry resp.expires_at;
    last_validated_at = some now;
    grace_period_days = resp.grace_period_days;
    highest_seen_clock = some now;
  }

  unfoldable pub persist_activation :
      ℕ → String → ActivateLicenseResponse → Local (Result ApiError LicenseStatus)
  persist_activation now license_key resp = do
    let status = status_from_server_response resp.status
    saved ← save_local_license host (activated_record now license_key resp)
    elim saved [
      | err e ↦
          return (err (server_error ("activation succeeded but failed to persist locally: " ++ e)))
      | ok u ↦ do log_validation (debug_text status) true "activation succeeded"; return (ok status)
    ]

  unfoldable pub install :
      ℕ → String → Result ApiError ActivateLicenseResponse → Local (Result ApiError LicenseStatus)
  install now license_key (err e) = return (err e)
  install now license_key (ok resp) = persist_activation now license_key resp

  unfoldable pub activate_with :
      Machine
      → LicenseApiClient
      → String
      → Result String DeviceInfo
      → Local (Result ApiError LicenseStatus)
  activate_with machine api license_key (err e) =
      return (err (server_error ("failed to read device identity: " ++ e)))
  activate_with machine api license_key (ok d) =
      install machine.now license_key
        (api.activate_license (activation_request machine license_key d))

  unfoldable pub activate :
      Machine → LicenseApiClient → String → Local (Result ApiError LicenseStatus)
  activate machine api license_key =
      if machine.debug_assertions && str_eq (host.trim license_key) dev_test_license_key
      then activate_locally machine.now
      else (do
        device ← get_or_create_device_info machine.fresh
        activate_with machine api license_key device)
