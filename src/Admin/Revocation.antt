-- ===== src/Admin/Revocation.antt =====
-- What the revocation of a license by an admin means for the devices that come later
-- (server/src/service/admin_service.rs, `revoke_license`).
use bank_statement_processor.Prelude.{
  ℕ, String, Bool, Option, some, List, [], ◌∷◌, ◌≡◌, ◌≢◌, inl, inr, arith, refl, sym, ap, ◌∙◌, ◌==◌,
  find, update_where, str_eq, Option-cases,
}
use bank_statement_processor.Domain.Status.{LicenseRecordStatus, license_status_eq}
use bank_statement_processor.Domain.Records.{License}
use bank_statement_processor.Repository.Db.{ok, Tables, Outages, query, exec}
use bank_statement_processor.Repository.Licenses
use bank_statement_processor.Repository.Admin
use bank_statement_processor.Repository.Admin.{as_revoked}
use bank_statement_processor.Licensing.Service.{ActivationOutcome, effective_status, activate}
use bank_statement_processor.Licensing.Activation.{activate_entitles}
use bank_statement_processor.Admin.Service.{find_license, revoke_license}

find-revoked :
    (p : License → Bool) (id : ℕ) (reason : Option String) (now : ℕ) (ls : List License)
    (l : License)
    → find p (update_where (λ l. l.id == id) (as_revoked reason now) ls) ≡ some l
    → l.id ≡ id
    → l.status ≡ LicenseRecordStatus.revoked
unfolding find update_where as_revoked
find-revoked p id reason now [] l h e = absurd (ground arith)
find-revoked p id reason now (x ∷ xs) l h e = ground (arith, find-revoked p id reason now xs l)

effective_status_revoked :
    (now : ℕ) (l : License)
    → l.status ≡ LicenseRecordStatus.revoked
    → effective_status now l ≡ LicenseRecordStatus.revoked
unfolding effective_status license_status_eq
effective_status_revoked now l e = rw e refl

module _ {V : Type 0} where
  revoke_license-licenses :
      (now id : ℕ) (reason : Option String) (t : Tables V) (o : Outages) (l : License)
      → (revoke_license now id reason t o).0 ≡ ok l
      → (revoke_license now id reason t o).1.licenses
        ≡ update_where (λ l. l.id == id) (as_revoked reason now) t.licenses
  unfolding revoke_license find_license Licenses.find_by_id Admin.revoke_license query exec
  revoke_license-licenses now id reason t o l h =
      elim (Option-cases (find (λ l. l.id == id) t.licenses)) [
        | inl e ↦ ground arith
        | inr (found, e) ↦ ground arith
      ]

  -- Once an admin's revocation of a license is answered, no device is activated on this license any
  -- more: a later activation on the tables it leaves, with whatever key, device, clock and failing
  -- statements, does not succeed for this license.
  pub revoked_cannot_activate :
      (now later_on id : ℕ) (reason : Option String) (key device_id fingerprint label : String)
      (t : Tables V) (o o' : Outages) (l : License) (outcome : ActivationOutcome)
      → (revoke_license now id reason t o).0 ≡ ok l
      → (activate later_on key device_id fingerprint label
          (revoke_license now id reason t o).1
          o').0
        ≡ ok outcome
      → outcome.license.id ≢ id
  revoked_cannot_activate now later_on id reason key device_id fingerprint label t o o' l outcome h
        k e =
      (let (f, r, _, _) =
          activate_entitles later_on key device_id fingerprint label
            (revoke_license now id reason t o).1 o' outcome k in
        r (
          effective_status_revoked later_on outcome.license (
            find-revoked (λ l. str_eq l.license_key key) id reason now t.licenses outcome.license
              (ap (find (λ l. str_eq l.license_key key))
                  (sym (revoke_license-licenses now id reason t o l h))
                ∙ f)
              e)))
