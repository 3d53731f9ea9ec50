-- ===== src/Repository/Devices.antt =====
-- The `devices` table (server/src/repository/device.rs). `activate_device` decides and writes inside
-- one transaction that holds the lock of the license row, so it is one atomic command here.
use bank_statement_processor.Prelude.{
  ℕ, suc, String, Bool, true, false, not, ◌&&◌, Option, none, some, List, ◌∷◌, ◌==◌, str_eq,
  if◌then◌else◌, length, find, select, any, update_where,
}
use bank_statement_processor.Prelude.Int.{ℤ, leb_ℤ, as_i32}
use bank_statement_processor.Domain.Records.{Device}
use bank_statement_processor.Repository.Db.{
  RepositoryError, database, Result, ok, err, Tables, Query, Cmd, query, exec, statement, return,
  reads, transaction,
}
use bank_statement_processor.Repository.Cmd.{◌>>=◌, ◌>>◌}

pub data DeviceActivationOutcome : Type 0 where
  activated : DeviceActivationOutcome
  limit_reached : List Device → DeviceActivationOutcome

unfoldable pub is_none {ℓ} : {A : Type ℓ} → Option A → Bool
is_none none = true
is_none (some a) = false

-- license_id = $1 AND deactivated_at IS NULL
unfoldable pub is_active_of : ℕ → Device → Bool
is_active_of license_id d = d.license_id == license_id && is_none d.deactivated_at

unfoldable pub is_device_of : ℕ → String → Device → Bool
is_device_of license_id device_id d = d.license_id == license_id && str_eq d.device_id device_id

unfoldable pub refresh : String → String → ℕ → Device → Device
refresh fingerprint label now d = record d {
  machine_fingerprint = fingerprint;
  device_label = some label;
  last_seen_at = now;
}

unfoldable pub reactivate : String → String → ℕ → Device → Device
reactivate fingerprint label now d = record d {
  machine_fingerprint = fingerprint;
  device_label = some label;
  last_seen_at = now;
  deactivated_at = none;
}

unfoldable pub new_device_row : ℕ → String → String → String → ℕ → ℕ → Device
new_device_row license_id device_id fingerprint label id now = record {
  id = id;
  license_id = license_id;
  device_id = device_id;
  machine_fingerprint = fingerprint;
  device_label = some label;
  first_seen_at = now;
  last_seen_at = now;
  deactivated_at = none;
}

module _ {V : Type 0} where
  unfoldable pub find_by_license_and_device_id :
      ℕ → String → Query V RepositoryError (Option Device)
  find_by_license_and_device_id license_id device_id =
      query database (λ t. find (is_device_of license_id device_id) t.devices)

  unfoldable pub count_active_by_license : ℕ → Query V RepositoryError ℕ
  count_active_by_license license_id =
      query database (λ t. length (select (is_active_of license_id) t.devices))

  unfoldable pub touch_last_seen : ℕ → ℕ → Cmd V RepositoryError Unit
  touch_last_seen id now = exec database (λ t. (
    ok tt,
    record t {
      devices = update_where (λ d. d.id == id) (λ d. record d { last_seen_at = now }) t.devices;
    },
  ))

  unfoldable pub deactivate : ℕ → ℕ → Cmd V RepositoryError Unit
  deactivate id now = exec database (λ t. (
    ok tt,
    record t {
      devices =
          update_where (λ d. d.id == id) (λ d. record d { deactivated_at = some now }) t.devices;
    },
  ))

  unfoldable pub insert_device_row :
      ℕ → String → String → String → ℕ → Tables V → Result RepositoryError Unit × Tables V
  insert_device_row license_id device_id fingerprint label now t =
      if any (λ l. l.id == license_id) t.licenses
        && not (any (is_device_of license_id device_id) t.devices)
      then (
        ok tt,
        record t {
          devices =
              new_device_row license_id device_id fingerprint label t.next_id.devices now
              ∷ t.devices;
          next_id = record t.next_id { devices = suc t.next_id.devices };
        },
      )
      else (err database, t)

  -- SELECT id FROM licenses WHERE id = $1 FOR UPDATE, by `fetch_one`: no row is an error.
  unfoldable pub lock_license : ℕ → Cmd V RepositoryError Unit
  lock_license license_id =
      exec database
        (λ t. if any (λ l. l.id == license_id) t.licenses then (ok tt, t) else (err database, t))

  -- The row of this device among the locked rows, and the locked rows that are active.
  unfoldable pub decide_activation :
      ℕ
      → ℤ
      → String
      → String
      → String
      → ℕ
      → Option Device
      → List Device
      → Cmd V RepositoryError DeviceActivationOutcome
  decide_activation license_id max_devices device_id fingerprint label now (some existing) active =
      if is_none existing.deactivated_at
      then (do
        exec database (λ t. (
          ok tt,
          record t {
            devices =
                update_where (λ d. d.id == existing.id) (refresh fingerprint label now) t.devices;
          },
        ))
        statement database
        reads (return (ok activated)))
      else if leb_ℤ max_devices (as_i32 (length active))
      then (do statement database; reads (return (ok (limit_reached active))))
      else (do
        exec database (λ t. (
          ok tt,
          record t {
            devices =
                update_where (λ d. d.id == existing.id) (reactivate fingerprint label now)
                  t.devices;
          },
        ))
        statement database
        reads (return (ok activated)))
  decide_activation license_id max_devices device_id fingerprint label now none active =
      if leb_ℤ max_devices (as_i32 (length active))
      then (do statement database; reads (return (ok (limit_reached active))))
      else (do
        exec database (insert_device_row license_id device_id fingerprint label now)
        statement database
        reads (return (ok activated)))

  unfoldable pub activate_device :
      ℕ → ℤ → String → String → String → ℕ → Cmd V RepositoryError DeviceActivationOutcome
  activate_device license_id max_devices device_id fingerprint label now = transaction (do
    statement database
    lock_license license_id
    devices ← reads (query database (λ t. select (λ d. d.license_id == license_id) t.devices))
    decide_activation license_id max_devices device_id fingerprint label now
        (find (λ d. str_eq d.device_id device_id) devices)
        (select (λ d. is_none d.deactivated_at) devices))
