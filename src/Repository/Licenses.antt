-- ===== src/Repository/Licenses.antt =====
-- The `licenses` table (server/src/repository/license.rs).
use bank_statement_processor.Prelude.{
  ℕ, suc, String, Bool, not, ◌&&◌, Option, none, List, ◌∷◌, ◌==◌, str_eq, if◌then◌else◌, find,
  select, any, update_where,
}
use bank_statement_processor.Domain.Status.{LicenseRecordStatus, license_status_eq}
use bank_statement_processor.Domain.Records.{License, NewLicense}
use bank_statement_processor.Repository.Db.{
  RepositoryError, database, Result, ok, err, Tables, Query, Cmd, query, exec,
}
use bank_statement_processor.Repository.Sql.{latest_by}

-- subscription_id = $1 AND status != 'revoked'
unfoldable pub is_live_of : ℕ → License → Bool
is_live_of subscription_id l =
    l.subscription_id == subscription_id
    && not (license_status_eq l.status LicenseRecordStatus.revoked)

-- UPDATE licenses SET status = $2, expires_at = $3 WHERE id = $1
unfoldable pub set_license_status : ℕ → LicenseRecordStatus → Option ℕ → List License → List License
set_license_status id s expires_at =
    update_where (λ l. l.id == id) (λ l. record l { status = s; expires_at = expires_at })

unfoldable pub new_license_row : NewLicense → ℕ → ℕ → License
new_license_row n id now = record {
  id = id;
  subscription_id = n.subscription_id;
  license_key = n.license_key;
  status = n.status;
  expires_at = n.expires_at;
  max_devices = n.max_devices;
  grace_period_days = n.grace_period_days;
  issued_at = now;
  revoked_at = none;
  revoked_reason = none;
}

module _ {V : Type 0} where
  unfoldable pub find_by_key : String → Query V RepositoryError (Option License)
  find_by_key key = query database (λ t. find (λ l. str_eq l.license_key key) t.licenses)

  unfoldable pub find_by_id : ℕ → Query V RepositoryError (Option License)
  find_by_id id = query database (λ t. find (λ l. l.id == id) t.licenses)

  unfoldable pub find_latest_by_subscription : ℕ → Query V RepositoryError (Option License)
  find_latest_by_subscription subscription_id =
      query database
        (λ t. latest_by (λ l. l.issued_at) (select (is_live_of subscription_id) t.licenses))

  -- The foreign key on `subscription_id` and the UNIQUE `license_key` can refuse the row.
  unfoldable pub insert_license_row :
      NewLicense → ℕ → Tables V → Result RepositoryError License × Tables V
  insert_license_row n now t =
      if any (λ s. s.id == n.subscription_id) t.subscriptions
        && not (any (λ l. str_eq l.license_key n.license_key) t.licenses)
      then (let row = new_license_row n t.next_id.licenses now in
          (
            ok row,
            record t {
              licenses = row ∷ t.licenses;
              next_id = record t.next_id { licenses = suc t.next_id.licenses };
            },
          ))
      else (err database, t)

  unfoldable pub insert : NewLicense → ℕ → Cmd V RepositoryError License
  insert n now = exec database (insert_license_row n now)

  unfoldable pub extend : ℕ → LicenseRecordStatus → Option ℕ → Cmd V RepositoryError Unit
  extend id s expires_at =
      exec database
        (λ t. (ok tt, record t { licenses = set_license_status id s expires_at t.licenses }))
