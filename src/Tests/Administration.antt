-- ===== src/Tests/Administration.antt =====
-- The theorem on the revocation by an admin, at a shop where the first of two licenses is revoked.
use bank_statement_processor.Prelude.{some, [], ◌∷◌, ◌≢◌, refl, find, select, any, update_where}
use bank_statement_processor.Prelude.Int.{as_i32}
use bank_statement_processor.Domain.Status.{PlanType, license_status_eq}
use bank_statement_processor.Domain.Records.{License}
use bank_statement_processor.Repository.Db.{Tables, query, exec, fails, later}
use bank_statement_processor.Repository.Devices
use bank_statement_processor.Repository.Licenses
use bank_statement_processor.Repository.Subscriptions
use bank_statement_processor.Repository.Admin
use bank_statement_processor.Repository.Audit.{record_validation}
use bank_statement_processor.Licensing.Service.{
  ActivationOutcome, activate, activate_on, effective_status, has_passed,
}
use bank_statement_processor.Admin.Service.{find_license, revoke_license}
use bank_statement_processor.Admin.Revocation.{revoked_cannot_activate}
use bank_statement_processor.Tests.Document.{Document}
use bank_statement_processor.Tests.Shop.{purchase, shop_with}
use bank_statement_processor.Tests.Activations.{issued}

abbrev second : License
second = record issued { id = 6; license_key = "K2" }

abbrev shop : Tables Document
shop = shop_with (purchase ∷ []) (second ∷ issued ∷ []) []

abbrev granted_second : ActivationOutcome
granted_second = record { license = second; customer_id = 1; plan_type = PlanType.monthly }

revoked_cannot_activate_example : second.id ≢ 5
unfolding revoke_license find_license Admin.revoke_license Admin.as_revoked update_where activate
    activate_on Licenses.find_by_key Licenses.find_by_id Subscriptions.find_by_id effective_status
    has_passed license_status_eq Devices.activate_device Devices.decide_activation
    Devices.lock_license Devices.insert_device_row Devices.is_none Devices.is_device_of query exec
    fails later select find any as_i32 record_validation
revoked_cannot_activate_example =
    revoked_cannot_activate 100 101 5 (some "refund") "K2" "d2" "f2" "desk" shop [] []
      (Admin.as_revoked (some "refund") 100 issued) granted_second refl refl
