-- ===== src/Admin/Service.antt =====
-- The four changes that an admin can make (server/src/service/admin_service.rs). `now` is the clock of
-- the database.
use bank_statement_processor.Prelude.{ℕ, String, Bool, Option, none, some, not, if◌then◌else◌}
use bank_statement_processor.Domain.Status.{LicenseRecordStatus, license_status_eq}
use bank_statement_processor.Domain.Records.{License}
use bank_statement_processor.Repository.Db.{
  RepositoryError, Result, ok, err, Query, Cmd, return, reads,
}
use bank_statement_processor.Repository.Cmd.{◌>>=◌, ◌>>◌}
use bank_statement_processor.Repository.Licenses
use bank_statement_processor.Repository.Devices
use bank_statement_processor.Repository.Admin

pub data AdminOperationError : Type 0 where
  license_not_found license_not_revoked device_not_found : AdminOperationError
  repository : RepositoryError → AdminOperationError

abbrev pub admin_result : {A : Type 0} → Result RepositoryError A → Result AdminOperationError A
admin_result (ok a) = ok a
admin_result (err e) = err (repository e)

abbrev pub or_fail : {A : Type 0} → AdminOperationError → Option A → Result AdminOperationError A
or_fail e none = err e
or_fail e (some a) = ok a

unfoldable pub is_status_revoked : License → Bool
is_status_revoked l = license_status_eq l.status LicenseRecordStatus.revoked

module _ {V : Type 0} where
  abbrev pub ask : {A : Type 0} → Query V RepositoryError A → Cmd V AdminOperationError A
  ask q t o = let (r, o') = q t o in (admin_result r, t, o')

  abbrev pub run : {A : Type 0} → Cmd V RepositoryError A → Cmd V AdminOperationError A
  run m t o = let (r, t', o') = m t o in (admin_result r, t', o')

  abbrev pub give : {A : Type 0} → Result AdminOperationError A → Cmd V AdminOperationError A
  give r = reads (return r)

  unfoldable pub find_license : ℕ → Cmd V AdminOperationError License
  find_license license_id = do
    found ← ask (Licenses.find_by_id license_id)
    give (or_fail license_not_found found)

  unfoldable pub revoke_license : ℕ → ℕ → Option String → Cmd V AdminOperationError License
  revoke_license now license_id reason = do
    find_license license_id
    run (Admin.revoke_license license_id reason now)
    find_license license_id

  unfoldable pub restore_license : ℕ → Cmd V AdminOperationError License
  restore_license license_id = do
    license ← find_license license_id
    if not (is_status_revoked license)
        then give (err license_not_revoked)
        else (do run (Admin.restore_license license_id); find_license license_id)

  unfoldable pub deactivate_device : ℕ → ℕ → Cmd V AdminOperationError Unit
  deactivate_device now device_id = do
    found ← ask (Admin.find_device_by_id device_id)
    give (or_fail device_not_found found)
    run (Devices.deactivate device_id now)

  unfoldable pub activate_device : ℕ → Cmd V AdminOperationError Unit
  activate_device device_id = do
    found ← ask (Admin.find_device_by_id device_id)
    give (or_fail device_not_found found)
    run (Admin.reactivate_device device_id)
