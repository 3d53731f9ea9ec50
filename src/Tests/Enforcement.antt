-- ===== src/Tests/Enforcement.antt =====
-- The theorems on the enforcement of the desktop license on one stored license. The server either answers
-- every validation with one status or cannot be reached.
use bank_statement_processor.Prelude.{
  ℕ, String, true, false, none, some, [], ◌≡◌, ◌≢◌, ◌↔◌, refl, arith, ◌*◌, eq_iff,
}
use bank_statement_processor.Prelude.Int.{pos}
use bank_statement_processor.Payment.Plans.{decimal}
use bank_statement_processor.Repository.Db.{ok, err, Outages}
use bank_statement_processor.Desktop.Offline.{
  day, derive_offline_status, elapsed_days, is_licensed, rolled_back,
}
use bank_statement_processor.Desktop.Store.{
  Host, LocalLicenseRecord, DeviceInfo, Store, not_activated, compute_integrity_hmac,
  integrity_payload, decimal_ℤ, should_advance,
}
use bank_statement_processor.Desktop.License.{
  network_error, device_not_activated, device_limit_reached, ValidateLicenseResponse,
  LicenseApiClient, Machine, allowed, blocked, enforce, activate, offline_status,
}
use bank_statement_processor.Desktop.Enforcement.{enforce_fails_closed, Stored, Vouched}
use bank_statement_processor.Desktop.Held.{holding, seen}
use bank_statement_processor.Desktop.Revocation.{
  fallen_allowed, revoked_is_final, expired_then_offline,
}
use bank_statement_processor.Desktop.Installation.{activate_installs, Installed}
use bank_statement_processor.Desktop.Refusal.{offline_allowed_iff}
use bank_statement_processor.Desktop.Grace.{IsForward, LastsUntil}
use bank_statement_processor.Desktop.Tampering.{tampered_never_allowed}

abbrev pub host : Host
host = record {
  hmac = λ text. text;
  to_rfc3339 = λ t. "2026-01-01T00:00:00Z";
  parse_rfc3339 = λ text. none;
  format_date = λ t. "2026-01-01";
  trim = λ text. text;
}

abbrev pub laptop : DeviceInfo
laptop = record { device_id = "d1"; machine_fingerprint = "f1"; fingerprint_inputs_json = "{}" }

abbrev pub license : LocalLicenseRecord
license = record {
  customer_id = some "c1";
  license_id = some "l1";
  license_key = some "BSP-1";
  subscription_type = some "monthly";
  status = "active";
  expires_at = none;
  last_validated_at = some 5;
  grace_period_days = pos 7;
  highest_seen_clock = some 5;
}

abbrev answering : String → LicenseApiClient
answering status = record {
  validate_license = λ asked. ok (record {
    status = status;
    expires_at = none;
    grace_period_days = pos 7;
    server_time = "";
    fingerprint_matched = true;
  });
  activate_license = λ asked. ok (record {
    license_id = "l1";
    customer_id = "c1";
    subscription_type = "monthly";
    status = status;
    expires_at = none;
    grace_period_days = pos 7;
  });
}

abbrev pub unreachable : LicenseApiClient
unreachable = record {
  validate_license = λ asked. err (network_error "offline");
  activate_license = λ asked. err (network_error "offline");
}

abbrev pub at_time : ℕ → Machine
at_time now = record {
  now = now;
  fresh = laptop;
  computer_name = "office";
  debug_assertions = false;
}

abbrev response : String → ValidateLicenseResponse
response status = record {
  status = status;
  expires_at = none;
  grace_period_days = pos 7;
  server_time = "";
  fingerprint_matched = true;
}

abbrev pub shop : Store
shop = holding host license laptop []

offline_allowed : (enforce host (at_time (5 * day)) unreachable shop []).0 ≡ allowed
unfolding offline_status derive_offline_status elapsed_days seen should_advance is_licensed
    rolled_back
offline_allowed =
    fallen_allowed host (at_time (5 * day)) unreachable license "l1" laptop []
      (network_error "offline") refl refl refl

-- Offline, five days after the last validation.
enforce_fails_closed_example :
    (r : LocalLicenseRecord) × (id : String) × (d : DeviceInfo) × Stored host
      (at_time (5 * day))
      r
      shop
      []
    × (r.license_id ≡ some id)
    × Vouched host (at_time (5 * day)) unreachable r id d
enforce_fails_closed_example =
    enforce_fails_closed host (at_time (5 * day)) unreachable shop [] offline_allowed

revoked_is_final_example :
    let (outcome, s, o) = enforce host (at_time (5 * day)) (answering "revoked") shop [] in
    ((message : String) × (outcome ≡ blocked message true))
    × (s.local_license
        ≡ some (record {
          license = not_activated;
          integrity_hmac = some (compute_integrity_hmac host not_activated);
        }))
    × ((later_machine : Machine) (later_api : LicenseApiClient) (outages : Outages)
        → (enforce host later_machine later_api s outages).0 ≢ allowed)
revoked_is_final_example =
    revoked_is_final host (at_time (5 * day)) (answering "revoked") license "l1" laptop []
      (response "revoked") refl refl refl

expired_then_offline_example :
    let (outcome, s, o) = enforce host (at_time (5 * day)) (answering "expired") shop [] in
    ((message : String) × (outcome ≡ blocked message false))
    × ((enforce host (at_time (12 * day)) unreachable s o).0 ≡ allowed)
expired_then_offline_example =
    expired_then_offline host (at_time (5 * day)) (at_time (12 * day)) (answering "expired")
      unreachable license "l1" laptop [] (response "expired") 7 (network_error "offline") refl
      (omega arith) refl refl refl refl (omega arith) (omega arith)

activate_installs_example :
    let (result, s', o') = activate host (at_time 9) (answering "active") "BSP-2" shop [] in
    Installed host 9 shop result s'
activate_installs_example = activate_installs host (at_time 9) (answering "active") "BSP-2" shop []

abbrev edited : Store
edited = record shop {
  local_license = some (record { license = license; integrity_hmac = some "made up" });
}

made_up_differs : "made up" ≢ compute_integrity_hmac host license
unfolding compute_integrity_hmac integrity_payload decimal_ℤ decimal
made_up_differs h = ground (arith, eq_iff "made up" (compute_integrity_hmac host license))

tampered_never_allowed_example :
    (enforce host (at_time 9) (answering "active") edited []).0 ≢ allowed
unfolding holding
tampered_never_allowed_example =
    tampered_never_allowed host (at_time 9) (answering "active") edited []
      (record { license = license; integrity_hmac = some "made up" }) "made up" refl refl
      made_up_differs

abbrev refusing : LicenseApiClient
refusing = record {
  validate_license = λ asked. err device_not_activated;
  activate_license = λ asked. err device_limit_reached;
}

offline_allowed_iff_example : ((enforce host (at_time (5 * day)) refusing shop []).0 ≡ allowed) ↔ (
    (license.status ≢ "revoked")
    × (license.status ≢ "suspended")
    × IsForward license.highest_seen_clock (5 * day)
    × LastsUntil license.grace_period_days license.last_validated_at (5 * day))
offline_allowed_iff_example =
    offline_allowed_iff host (at_time (5 * day)) refusing license "l1" laptop []
      device_not_activated refl refl
