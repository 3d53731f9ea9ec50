-- ===== src/Desktop/Lapse.antt =====
-- A license that has lapsed without the server (src/license/mod.rs, `check_status`;
-- src/license/storage.rs, `advance_clock_watermark`; src/license/validation.rs).
use bank_statement_processor.Prelude.{
  ℕ, String, false, some, List, [], ◌∷◌, ◌≡◌, refl, sym, ap, ◌∙◌, subst, inl, inr, arith,
  Bool-cases,
}
use bank_statement_processor.Repository.Db.{err}
use bank_statement_processor.Desktop.Offline.{is_licensed, advance_clock_watermark}
use bank_statement_processor.Desktop.Grace.{
  IsForward, IsPast, LastsUntil-earlier, offline_licensed_iff, advanced-IsForward, advanced-IsPast,
  advanced_to_now, forward_past,
}
use bank_statement_processor.Desktop.Store.{Host, LocalLicenseRecord, DeviceInfo, Store, LogEntry}
use bank_statement_processor.Desktop.License.{
  ApiError, ValidateLicenseRequest, LicenseApiClient, Machine, request, offline_status,
  check_status,
}
use bank_statement_processor.Desktop.Held.{
  holding, seen, seen_keeps, license_id-seen, highest-seen, fallen-holding,
}
use bank_statement_processor.Desktop.Refusal.{Holds, offline-Holds, Holds-offline}

-- The server confirms nothing: every request ends in an error.
abbrev pub IsSilent : LicenseApiClient → Type 0
IsSilent api = (req : ValidateLicenseRequest) → (x : ApiError) × (api.validate_license req ≡ err x)

module _ (host : Host) where
  -- The store after a check on each of these machines' clocks, the first one first.
  unfoldable pub checks : LicenseApiClient → List Machine → Store → Store
  checks api [] s = s
  checks api (m ∷ ms) s = checks api ms (check_status host m api s []).1

  -- The record after these checks.
  after : List Machine → LocalLicenseRecord → LocalLicenseRecord
  after [] r = r
  after (m ∷ ms) r = after ms (seen host m.now r)

  check-holding :
      (api : LicenseApiClient) (m : Machine) (r : LocalLicenseRecord) (id : String)
      (device : DeviceInfo) (log : List LogEntry)
      → IsSilent api
      → r.license_id ≡ some id
      → ((check_status host m api (holding host r device log) []).0
          ≡ offline_status host m.now (seen host m.now r))
        × (log' : List LogEntry) × ((check_status host m api (holding host r device log) []).1
            ≡ holding host (seen host m.now r) device log')
  check-holding api m r id device log silent h =
      let (x, e) = silent (request host m id device) in
      let k = fallen-holding host m api r id device log x h e in
      (ap (λ y. y.0) k, _, ap (λ y. y.1) k)

  checks-holding :
      (api : LicenseApiClient) (ms : List Machine) (r : LocalLicenseRecord) (id : String)
      (device : DeviceInfo) (log : List LogEntry)
      → IsSilent api
      → r.license_id ≡ some id
      → (log' : List LogEntry) × (checks api ms (holding host r device log)
          ≡ holding host (after ms r) device log')
  unfolding checks after
  checks-holding api [] r id device log silent h = (log, refl)
  checks-holding api (m ∷ ms) r id device log silent h =
      let (_, log1, e) = check-holding api m r id device log silent h in
      let (log2, k) =
        checks-holding api ms (seen host m.now r) id device log1 silent
          (license_id-seen host m.now r ∙ h) in
      (log2, ap (checks api ms) e ∙ k)

  after_keeps :
      (ms : List Machine) (r : LocalLicenseRecord)
      → ((after ms r).license_id ≡ r.license_id)
        × ((after ms r).status ≡ r.status)
        × ((after ms r).grace_period_days ≡ r.grace_period_days)
        × ((after ms r).last_validated_at ≡ r.last_validated_at)
  unfolding after
  after_keeps [] r = (refl, refl, refl, refl)
  after_keeps (m ∷ ms) r =
      let (i, s, g, l) = after_keeps ms (seen host m.now r) in
      let (s', g', l') = seen_keeps host m.now r in
      (i ∙ license_id-seen host m.now r, s ∙ s', g ∙ g', l ∙ l')

  after-IsPast :
      (now : ℕ) (ms : List Machine) (r : LocalLicenseRecord)
      → IsPast now r.highest_seen_clock
      → IsPast now (after ms r).highest_seen_clock
  unfolding after
  after-IsPast now [] r h = h
  after-IsPast now (m ∷ ms) r h = after-IsPast now ms (seen host m.now r) (
      subst (IsPast now) (sym (highest-seen host m.now r))
        (advanced-IsPast now r.highest_seen_clock m.now h))

  seen-IsPast :
      (now : ℕ) (r : LocalLicenseRecord)
      → IsForward r.highest_seen_clock now
      → IsPast now (seen host now r).highest_seen_clock
  seen-IsPast now r f =
      subst (IsPast now)
        (sym (highest-seen host now r ∙ advanced_to_now r.highest_seen_clock now f)) (omega arith)

  -- A cached license that holds at a later check held at this one.
  Holds-earlier :
      (now later : ℕ) (r r' : LocalLicenseRecord)
      → r'.status ≡ r.status
      → r'.grace_period_days ≡ r.grace_period_days
      → r'.last_validated_at ≡ r.last_validated_at
      → IsForward r.highest_seen_clock now
      → IsPast now r'.highest_seen_clock
      → Holds host later r'
      → Holds host now r
  Holds-earlier now later r r' s g l f past (a, b, c) =
      let (on, lasts) =
        (offline_licensed_iff r'.grace_period_days r'.last_validated_at
            (advance_clock_watermark r'.highest_seen_clock later) later).0
          c in
      let reached =
        forward_past now r'.highest_seen_clock later past
          ((advanced-IsForward r'.highest_seen_clock later).0 on) in
      let earlier = LastsUntil-earlier _ _ now later reached lasts in
      let earlier' = rw (g, l) at earlier in
      (
        λ e. a (s ∙ e),
        λ e. b (s ∙ e),
        (offline_licensed_iff r.grace_period_days r.last_validated_at
              (advance_clock_watermark r.highest_seen_clock now) now).1
            ((advanced-IsForward r.highest_seen_clock now).1 f, earlier'),
      )

  -- A lapse is final without the server. Take a stored license, a server that answers every request for
  -- a validation with an error, and a check at a clock that is not behind the stored watermark. If this
  -- check finds the program not licensed, then so does every check that comes after it and any others,
  -- however the clock is set at each of them, back or forward, when no statement of the local database
  -- fails.
  pub lapse_is_final :
      (api : LicenseApiClient) (m : Machine) (ms : List Machine) (later : Machine)
      (r : LocalLicenseRecord) (id : String) (device : DeviceInfo) (log : List LogEntry)
      → IsSilent api
      → r.license_id ≡ some id
      → IsForward r.highest_seen_clock m.now
      → is_licensed (check_status host m api (holding host r device log) []).0 ≡ false
      → is_licensed
          (check_status host later api (checks api (m ∷ ms) (holding host r device log)) []).0
        ≡ false
  unfolding after
  lapse_is_final api m ms later r id device log silent h f lapsed =
      let (log', e) = checks-holding api (m ∷ ms) r id device log silent h in
      let r' = after (m ∷ ms) r in
      let (i, s, g, l) = after_keeps (m ∷ ms) r in
      let (first, _, _) = check-holding api m r id device log silent h in
      let (last, _, _) = check-holding api later r' id device log' silent (i ∙ h) in
      elim (Bool-cases (is_licensed (offline_status host later.now (seen host later.now r')))) [
        | inr k ↦ rw (e, last) k
        | inl k ↦
            (let held =
                Holds-earlier m.now later.now r r' s g l f
                  (after-IsPast m.now ms (seen host m.now r) (seen-IsPast m.now r f))
                  (offline-Holds host later.now r' k) in
              let still = Holds-offline host m.now r held in
              let lapsed' = rw first at lapsed in absurd (cc))
      ]
