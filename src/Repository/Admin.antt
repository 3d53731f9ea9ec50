-- ===== src/Repository/Admin.antt =====
-- The writes and the lookup of the admin repository (server/src/repository/admin.rs).
use bank_statement_processor.Prelude.{ℕ, String, Bool, Option, none, some, ◌==◌, find, update_where}
use bank_statement_processor.Domain.Status.{LicenseRecordStatus}
use bank_statement_processor.Domain.Records.{License, Device, Subscription}
use bank_statement_processor.Repository.Db.{
  RepositoryError, database, ok, Tables, Query, Cmd, query, exec,
}
use bank_statement_processor.Repository.Devices.{is_none}

pub record AdminDeviceSummary : Type 0 where
  pub id : ℕ
  pub license_id : ℕ
  pub user_id : ℕ
  pub device_id : String
  pub device_label : Option String
  pub last_seen_at : ℕ
  pub is_active : Bool

unfoldable pub as_revoked : Option String → ℕ → License → License
as_revoked reason now l = record l {
  status = LicenseRecordStatus.revoked;
  revoked_at = some now;
  revoked_reason = reason;
}

unfoldable pub as_restored : License → License
as_restored l = record l {
  status = LicenseRecordStatus.active;
  revoked_at = none;
  revoked_reason = none;
}

-- The row of the two joins, if both find their row.
unfoldable pub device_summary : Device → Option Subscription → Option AdminDeviceSummary
device_summary d none = none
device_summary d (some s) = some (record {
  id = d.id;
  license_id = d.license_id;
  user_id = s.user_id;
  device_id = d.device_id;
  device_label = d.device_label;
  last_seen_at = d.last_seen_at;
  is_active = is_none d.deactivated_at;
})

module _ {V : Type 0} where
  unfoldable pub subscription_of : Option License → Tables V → Option Subscription
  subscription_of none t = none
  subscription_of (some l) t = find (λ s. s.id == l.subscription_id) t.subscriptions

  unfoldable pub joined : Option Device → Tables V → Option AdminDeviceSummary
  joined none t = none
  joined (some d) t =
      device_summary d (subscription_of (find (λ l. l.id == d.license_id) t.licenses) t)

  unfoldable pub find_device_by_id : ℕ → Query V RepositoryError (Option AdminDeviceSummary)
  find_device_by_id id = query database (λ t. joined (find (λ d. d.id == id) t.devices) t)

  unfoldable pub reactivate_device : ℕ → Cmd V RepositoryError Unit
  reactivate_device id = exec database (λ t. (
    ok tt,
    record t {
      devices = update_where (λ d. d.id == id) (λ d. record d { deactivated_at = none }) t.devices;
    },
  ))

  unfoldable pub revoke_license : ℕ → Option String → ℕ → Cmd V RepositoryError Unit
  revoke_license id reason now = exec database (λ t. (
    ok tt,
    record t { licenses = update_where (λ l. l.id == id) (as_revoked reason now) t.licenses },
  ))

  unfoldable pub restore_license : ℕ → Cmd V RepositoryError Unit
  restore_license id =
      exec database (λ t.
        (ok tt, record t { licenses = update_where (λ l. l.id == id) as_restored t.licenses }))
