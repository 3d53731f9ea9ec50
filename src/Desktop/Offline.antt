-- ===== src/Desktop/Offline.antt =====
-- The license status of the desktop program without the server (src/license/validation.rs). An instant
-- is a number of nanoseconds.
use bank_statement_processor.Prelude.{
  ℕ, ◌-◌, ◌*◌, ◌/◌, ◌^◌, String, Bool, true, false, Option, none, some, ltb, str_eq, ◌||◌,
  if◌then◌else◌,
}
use bank_statement_processor.Prelude.Int.{ℤ, pos, negsuc, leb_ℤ}

pub data LicenseStatus : Type 0 where
  not_activated active : LicenseStatus
  active_offline_grace : ℤ → LicenseStatus
  grace_period_expired suspended expired : LicenseStatus

unfoldable pub is_licensed : LicenseStatus → Bool
is_licensed active = true
is_licensed (active_offline_grace days_remaining) = true
is_licensed _ = false

abbrev pub day : ℕ
day = 86400 * 10 ^ 9

-- `(now - last).num_days().max(0)`: whole days, and 0 for an instant before `last`.
unfoldable pub elapsed_days : ℕ → ℕ → ℕ
elapsed_days now last = (now - last) / day

-- `(grace_period_days - elapsed_days).max(0)`
unfoldable pub days_left : ℤ → ℕ → ℤ
days_left (pos grace) elapsed = pos (grace - elapsed)
days_left (negsuc n) elapsed = pos 0

-- The clock stands before the highest instant that was ever seen.
unfoldable pub rolled_back : Option ℕ → ℕ → Bool
rolled_back none now = false
rolled_back (some watermark) now = ltb now watermark

unfoldable pub derive_offline_status : ℤ → Option ℕ → Option ℕ → ℕ → LicenseStatus
derive_offline_status grace_period_days none highest_seen_clock now = not_activated
derive_offline_status grace_period_days (some last_validated_at) highest_seen_clock now =
    if rolled_back highest_seen_clock now
    then grace_period_expired
    else (let elapsed = elapsed_days now last_validated_at in
        if leb_ℤ (pos elapsed) grace_period_days
        then active_offline_grace (days_left grace_period_days elapsed)
        else grace_period_expired)

unfoldable pub status_from_server_response : String → LicenseStatus
status_from_server_response status =
    if str_eq status "active"
    then active
    else if str_eq status "suspended"
    then suspended
    else if str_eq status "expired" || str_eq status "revoked" || str_eq status "device_mismatch"
    then expired
    else expired

-- What `advance_clock_watermark` stores for a license record that is there: the watermark never moves
-- backward (src/license/storage.rs).
unfoldable pub advance_clock_watermark : Option ℕ → ℕ → Option ℕ
advance_clock_watermark none now = some now
advance_clock_watermark (some existing) now = if ltb existing now then some now else some existing
