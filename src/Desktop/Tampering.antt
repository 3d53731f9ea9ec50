-- ===== src/Desktop/Tampering.antt =====
-- A license record that was edited in the local database (src/license/storage.rs, src/license/mod.rs).
use bank_statement_processor.Prelude.{
  ℕ, String, some, ◌≡◌, ◌≢◌, refl, arith, inl, inr, eq_iff, Bool-cases,
}
use bank_statement_processor.Repository.Db.{err, Outages, fails, later}
use bank_statement_processor.Desktop.Store.{
  Host, Store, SavedLicense, tampered, execute, advance_from, check_seal, compute_integrity_hmac,
  load_local_license, store_watermark,
}
use bank_statement_processor.Desktop.License.{LicenseApiClient, Machine, allowed, enforce}
use bank_statement_processor.Desktop.Enforcement.{enforce_fails_closed}

module _ (host : Host) where
  broken_seal :
      (row : SavedLicense) (seal : String)
      → row.integrity_hmac ≡ some seal
      → seal ≢ compute_integrity_hmac host row.license
      → check_seal host (some row) ≡ err tampered
  unfolding check_seal
  broken_seal row seal h n =
      ground (arith, h, eq_iff seal (compute_integrity_hmac host row.license))

  broken_load :
      (s : Store) (o : Outages)
      → check_seal host s.local_license ≡ err tampered
      → (e : String) × (load_local_license host s o ≡ (err e, s, later o))
  unfolding load_local_license execute
  broken_load s o h = elim (Bool-cases (fails o)) [
    | inl e ↦ ("load_local_license", rw e refl)
    | inr e ↦ (tampered, rw (e, h) refl)
  ]

  broken_watermark :
      (now : ℕ) (s : Store) (o : Outages)
      → check_seal host s.local_license ≡ err tampered
      → (store_watermark host now s o).1 ≡ s
  unfolding store_watermark advance_from
  broken_watermark now s o h = let (e, l) = broken_load s o h in rw l refl

  -- A record that does not pass its integrity check never lets the program run: if the stored row carries
  -- a seal that is not the one of its fields, then no check, whatever the server answers, whichever
  -- statements of the local database fail and whatever the clock says, allows it.
  pub tampered_never_allowed :
      (machine : Machine) (api : LicenseApiClient) (s : Store) (o : Outages) (row : SavedLicense)
      (seal : String)
      → s.local_license ≡ some row
      → row.integrity_hmac ≡ some seal
      → seal ≢ compute_integrity_hmac host row.license
      → (enforce host machine api s o).0 ≢ allowed
  tampered_never_allowed machine api s o row seal stored sealed n a =
      let broken : check_seal host s.local_license ≡ err tampered =
        rw stored (broken_seal row seal sealed n) in
      let (r, id, d, loads, e, v) = enforce_fails_closed host machine api s o a in
      let (x, l) = broken_load s (store_watermark host machine.now s o).2 broken in
      let same = broken_watermark machine.now s o broken in
      let loads' = rw (same, l) at loads in absurd (ground arith)
