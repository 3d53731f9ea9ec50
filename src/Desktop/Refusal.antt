-- ===== src/Desktop/Refusal.antt =====
-- A check that the server answers with an error (src/license/mod.rs, `check_status`).
use bank_statement_processor.Prelude.{
  ℕ, String, true, false, some, List, [], ◌≡◌, ◌≢◌, ◌↔◌, refl, sym, ap, ◌∙◌, arith, inl, inr,
  str_eq, eq_iff, Bool-cases, ◌||◌,
}
use bank_statement_processor.Repository.Db.{err}
use bank_statement_processor.Desktop.Offline.{
  is_licensed, derive_offline_status, advance_clock_watermark,
}
use bank_statement_processor.Desktop.Grace.{
  IsForward, LastsUntil, offline_licensed_iff, advanced-IsForward,
}
use bank_statement_processor.Desktop.Store.{Host, LocalLicenseRecord, DeviceInfo, LogEntry}
use bank_statement_processor.Desktop.License.{
  ApiError, LicenseApiClient, Machine, allowed, request, offline_status, enforce,
}
use bank_statement_processor.Desktop.Enforcement.{offline_vouched, blocked_not_allowed}
use bank_statement_processor.Desktop.Held.{holding, seen, seen_keeps, highest-seen, fallen-holding}
use bank_statement_processor.Desktop.Revocation.{fallen_allowed}

module _ (host : Host) where
  -- The cached license holds for now: no revocation and no suspension is stored, and the grace applies.
  abbrev pub Holds : ℕ → LocalLicenseRecord → Type 0
  Holds now r =
      (r.status ≢ "revoked")
      × (r.status ≢ "suspended")
      × (is_licensed (
            derive_offline_status r.grace_period_days r.last_validated_at
              (advance_clock_watermark r.highest_seen_clock now) now)
          ≡ true)

  seen_derived :
      (now : ℕ) (r : LocalLicenseRecord)
      → derive_offline_status
          (seen host now r).grace_period_days
          (seen host now r).last_validated_at
          (seen host now r).highest_seen_clock
          now
        ≡ derive_offline_status r.grace_period_days r.last_validated_at
            (advance_clock_watermark r.highest_seen_clock now)
            now
  seen_derived now r =
      let (s, g, l) = seen_keeps host now r in rw (g, l, highest-seen host now r) refl

  pub offline-Holds :
      (now : ℕ) (r : LocalLicenseRecord)
      → is_licensed (offline_status host now (seen host now r)) ≡ true
      → Holds now r
  offline-Holds now r h =
      let (s, g, l) = seen_keeps host now r in
      let (a, b, c) = offline_vouched host now (seen host now r) h in
      (λ e. a (s ∙ e), λ e. b (s ∙ e), ap is_licensed (sym (seen_derived now r)) ∙ c)

  pub Holds-offline :
      (now : ℕ) (r : LocalLicenseRecord)
      → Holds now r
      → is_licensed (offline_status host now (seen host now r)) ≡ true
  unfolding offline_status
  Holds-offline now r (a, b, c) =
      let (s, g, l) = seen_keeps host now r in
      let open_status : (str_eq r.status "revoked" || str_eq r.status "suspended") ≡ false =
        ground (arith, eq_iff r.status "revoked", eq_iff r.status "suspended") in
      rw (ap (λ x. str_eq x "revoked" || str_eq x "suspended") s ∙ open_status)
        (ap is_licensed (seen_derived now r) ∙ c)

  pub refusal_is_offline :
      (machine : Machine) (api : LicenseApiClient) (r : LocalLicenseRecord) (id : String)
      (device : DeviceInfo) (log : List LogEntry) (e : ApiError)
      → r.license_id ≡ some id
      → api.validate_license (request host machine id device) ≡ err e
      → ((enforce host machine api (holding host r device log) []).0 ≡ allowed)
        ↔ Holds machine.now r
  unfolding enforce
  refusal_is_offline machine api r id device log e h refused = (
    λ k.
        elim (Bool-cases
          (is_licensed (offline_status host machine.now (seen host machine.now r)))) [
            | inl l ↦ offline-Holds machine.now r l
            | inr l ↦ absurd (
                blocked_not_allowed host _ _ _
                  (rw (fallen-holding host machine api r id device log e h refused, l) at k))
          ],
    λ k.
        fallen_allowed host machine api r id device log e h refused (Holds-offline machine.now r k),
  )

  -- Without an answer that vouches for it, the program runs for the grace period and no longer. When the
  -- server answers the check of a stored license with any error and no statement of the local database
  -- fails, the program may run exactly when no revocation and no suspension is stored, the clock is not
  -- behind the highest instant that was seen, and less than the grace period and one day has passed
  -- since the last validation (no validation, or a negative grace period, allows nothing).
  pub offline_allowed_iff :
      (machine : Machine) (api : LicenseApiClient) (r : LocalLicenseRecord) (id : String)
      (device : DeviceInfo) (log : List LogEntry) (e : ApiError)
      → r.license_id ≡ some id
      → api.validate_license (request host machine id device) ≡ err e
      → ((enforce host machine api (holding host r device log) []).0 ≡ allowed) ↔ (
          (r.status ≢ "revoked")
          × (r.status ≢ "suspended")
          × IsForward r.highest_seen_clock machine.now
          × LastsUntil r.grace_period_days r.last_validated_at machine.now)
  offline_allowed_iff machine api r id device log e h refused =
      let (run, hold) = refusal_is_offline machine api r id device log e h refused in
      let (split, join) =
        offline_licensed_iff r.grace_period_days r.last_validated_at
          (advance_clock_watermark r.highest_seen_clock machine.now) machine.now in
      let (back, on) = advanced-IsForward r.highest_seen_clock machine.now in
      (
        λ k. let (a, b, c) = run k in let (f, l) = split c in (a, b, back f, l),
        λ (a, b, f, l). hold (a, b, join (on f, l)),
      )
