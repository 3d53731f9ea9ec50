-- ===== src/Desktop/Revocation.antt =====
-- What an answer of the server leaves behind (src/license/mod.rs): a revocation, and an expiry.
use bank_statement_processor.Prelude.{
  ℕ, String, true, false, some, List, [], ◌∷◌, ◌≡◌, ◌≢◌, refl, sym, ap, ◌∙◌, ◌≤◌, ◌<◌, ◌+◌, ◌*◌,
  ◌⊎◌, inl, inr, arith, str_eq, eq_iff, Bool-cases, ◌||◌,
}
use bank_statement_processor.Prelude.Int.{pos}
use bank_statement_processor.Repository.Db.{ok, err, Outages, fails}
use bank_statement_processor.Desktop.Offline.{
  day, is_licensed, status_from_server_response, advance_clock_watermark,
}
use bank_statement_processor.Desktop.Store.{
  Host, LocalLicenseRecord, DeviceInfo, Store, not_activated, LogEntry, execute,
  compute_integrity_hmac, check_seal, load_local_license, save_local_license, store_watermark,
  advance_from, should_advance,
}
use bank_statement_processor.Desktop.License.{
  ApiError, ValidateLicenseResponse, LicenseApiClient, Machine, allowed, request, offline_status,
  enforce, blocked, describe,
}
use bank_statement_processor.Desktop.Grace.{
  IsForward, LastsUntil, offline_licensed_iff, advanced_to_now,
}
use bank_statement_processor.Desktop.Enforcement.{enforce_fails_closed, Stored}
use bank_statement_processor.Desktop.Held.{
  block-holding_kept, seen_keeps, highest-seen, holding, seen, answered, online_entry,
  accepted-holding, fallen-holding, block-holding, license_id-seen,
}

module _ (host : Host) where
  load-holding_outages :
      (r : LocalLicenseRecord) (device : DeviceInfo) (log : List LogEntry) (o : Outages)
      → ((load_local_license host (holding host r device log) o).0 ≡ ok (some r))
        ⊎ ((load_local_license host (holding host r device log) o).0 ≡ err "load_local_license")
  unfolding load_local_license execute holding check_seal
  load-holding_outages r device log o = elim (Bool-cases (fails o)) [
    | inl e ↦ inr (rw e refl)
    | inr e ↦ inl (rw (e, (eq_iff (compute_integrity_hmac host r) _).1 refl) refl)
  ]

  loaded-holding :
      (r r' : LocalLicenseRecord) (device : DeviceInfo) (log : List LogEntry) (o : Outages)
      → (load_local_license host (holding host r device log) o).0 ≡ ok (some r')
      → r ≡ r'
  loaded-holding r r' device log o h = elim (load-holding_outages r device log o) [
    | inl e ↦ grind arith
    | inr e ↦ absurd (grind arith)
  ]

  save-holding_outages :
      (r r' : LocalLicenseRecord) (device : DeviceInfo) (log : List LogEntry) (o : Outages)
      → ((save_local_license host r' (holding host r device log) o).1 ≡ holding host r' device log)
        ⊎ ((save_local_license host r' (holding host r device log) o).1 ≡ holding host r device log)
  unfolding save_local_license execute holding
  save-holding_outages r r' device log o = elim (Bool-cases (fails o)) [
    | inl e ↦ inr (rw e refl)
    | inr e ↦ inl (rw e refl)
  ]

  load_reads : (s : Store) (o : Outages) → (load_local_license host s o).1 ≡ s
  unfolding load_local_license execute
  load_reads s o = ground arith

  -- Whatever fails, the watermark changes no license id.
  Renewed : LocalLicenseRecord → DeviceInfo → List LogEntry → Store → Type 0
  Renewed r device log s =
      (r' : LocalLicenseRecord) × (s ≡ holding host r' device log) × (r'.license_id ≡ r.license_id)

  advance-holding :
      (now : ℕ) (r : LocalLicenseRecord) (device : DeviceInfo) (log : List LogEntry) (o : Outages)
      → Renewed r device log (advance_from host now (ok (some r)) (holding host r device log) o).1
  unfolding advance_from Renewed
  advance-holding now r device log o = elim (Bool-cases (should_advance now r.highest_seen_clock)) [
    | inl e ↦
        elim (save-holding_outages r (record r { highest_seen_clock = some now }) device log o) [
          | inl saved ↦ (record r { highest_seen_clock = some now }, rw e saved, refl)
          | inr kept ↦ (r, rw e kept, refl)
        ]
    | inr e ↦ (r, rw e refl, refl)
  ]

  watermark-holding :
      (now : ℕ) (r : LocalLicenseRecord) (device : DeviceInfo) (log : List LogEntry) (o : Outages)
      → Renewed r device log (store_watermark host now (holding host r device log) o).1
  unfolding store_watermark Renewed holding advance_from
  watermark-holding now r device log o =
      rw (load_reads (holding host r device log) o) (elim (load-holding_outages r device log o) [
        | inl e ↦ rw e (advance-holding now r device log _)
        | inr e ↦ rw e (r, refl, refl)
      ])

  -- What the program may still read is the license that is stored.
  Stored-holding :
      (machine : Machine) (r r' : LocalLicenseRecord) (device : DeviceInfo) (log : List LogEntry)
      (o : Outages)
      → Stored host machine r' (holding host r device log) o
      → r'.license_id ≡ r.license_id
  unfolding Renewed
  Stored-holding machine r r' device log o h =
      let (x, e, l) = watermark-holding machine.now r device log o in
      sym (ap (λ y. y.license_id) (loaded-holding x r' device log _ (rw e at h))) ∙ l

  -- A store whose license was cleared lets nothing run.
  cleared_never_allowed :
      (machine : Machine) (api : LicenseApiClient) (device : DeviceInfo) (log : List LogEntry)
      (o : Outages)
      → (enforce host machine api (holding host not_activated device log) o).0 ≢ allowed
  unfolding not_activated
  cleared_never_allowed machine api device log o h =
      let (r, id, d, stored, e, v) = enforce_fails_closed host machine api _ o h in
      let l = Stored-holding machine not_activated r device log o stored in absurd (grind arith)

  answer_not_licensed :
      (status : String)
      → status ≡ "revoked"
      → is_licensed (status_from_server_response status) ≡ false
  unfolding status_from_server_response is_licensed
  answer_not_licensed status h = rw h refl

  revoked_enforce :
      (machine : Machine) (api : LicenseApiClient) (r : LocalLicenseRecord) (id : String)
      (device : DeviceInfo) (log : List LogEntry) (resp : ValidateLicenseResponse)
      → r.license_id ≡ some id
      → api.validate_license (request host machine id device) ≡ ok resp
      → resp.status ≡ "revoked"
      → enforce host machine api (holding host r device log) [] ≡ (
        blocked
            (describe host
              (status_from_server_response resp.status)
              (some (answered host machine.now resp r)))
            true,
        holding host not_activated device
            (online_entry (status_from_server_response resp.status) ∷ log),
        [],
      )
  unfolding enforce answered is_licensed
  revoked_enforce machine api r id device log resp h e revoked =
      rw
        (
          accepted-holding host machine api r id device log resp h e,
          answer_not_licensed resp.status revoked,
        )
        (block-holding host _ (answered host machine.now resp r) device _ revoked)

  -- A revocation is final. When a check of a stored license gets the answer "revoked" and no statement
  -- of the local database fails, the program is blocked, is told to forget its session, and the stored
  -- license is replaced by the empty one; and after that no check, whatever the server answers then and
  -- whichever statements fail, lets it run.
  pub revoked_is_final :
      (machine : Machine) (api : LicenseApiClient) (r : LocalLicenseRecord) (id : String)
      (device : DeviceInfo) (log : List LogEntry) (resp : ValidateLicenseResponse)
      → r.license_id ≡ some id
      → api.validate_license (request host machine id device) ≡ ok resp
      → resp.status ≡ "revoked"
      → let (outcome, s, o) = enforce host machine api (holding host r device log) [] in
        ((message : String) × (outcome ≡ blocked message true))
        × (s.local_license
            ≡ some (record {
              license = not_activated;
              integrity_hmac = some (compute_integrity_hmac host not_activated);
            }))
        × ((later_machine : Machine) (later_api : LicenseApiClient) (outages : Outages)
            → (enforce host later_machine later_api s outages).0 ≢ allowed)
  unfolding holding
  revoked_is_final machine api r id device log resp h e revoked =
      rw (revoked_enforce machine api r id device log resp h e revoked)
        ((_, refl), refl, λ m a o. cleared_never_allowed m a device _ o)

  offline_allows :
      (now : ℕ) (r : LocalLicenseRecord)
      → r.status ≡ "expired"
      → IsForward r.highest_seen_clock now
      → LastsUntil r.grace_period_days r.last_validated_at now
      → is_licensed (offline_status host now r) ≡ true
  unfolding offline_status
  offline_allows now r h seen lasts = rw (ap (λ s. str_eq s "revoked" || str_eq s "suspended") h) (
      (offline_licensed_iff r.grace_period_days r.last_validated_at r.highest_seen_clock now).1
        (seen, lasts))

  pub fallen_allowed :
      (machine : Machine) (api : LicenseApiClient) (r : LocalLicenseRecord) (id : String)
      (device : DeviceInfo) (log : List LogEntry) (e : ApiError)
      → r.license_id ≡ some id
      → api.validate_license (request host machine id device) ≡ err e
      → is_licensed (offline_status host machine.now (seen host machine.now r)) ≡ true
      → (enforce host machine api (holding host r device log) []).0 ≡ allowed
  unfolding enforce
  fallen_allowed machine api r id device log e h down l =
      rw (fallen-holding host machine api r id device log e h down, l) refl

  expired_enforce :
      (machine : Machine) (api : LicenseApiClient) (r : LocalLicenseRecord) (id : String)
      (device : DeviceInfo) (log : List LogEntry) (resp : ValidateLicenseResponse)
      → r.license_id ≡ some id
      → api.validate_license (request host machine id device) ≡ ok resp
      → resp.status ≡ "expired"
      → enforce host machine api (holding host r device log) [] ≡ (
        blocked
            (describe host
              (status_from_server_response resp.status)
              (some (answered host machine.now resp r)))
            false,
        holding host
            (answered host machine.now resp r)
            device
            (online_entry (status_from_server_response resp.status) ∷ log),
        [],
      )
  unfolding enforce status_from_server_response is_licensed answered
  expired_enforce machine api r id device log resp h e status =
      rw
        (
          accepted-holding host machine api r id device log resp h e,
          ap (λ s. is_licensed (status_from_server_response s)) status,
        )
        (block-holding_kept host _ (answered host machine.now resp r) device _
          (ap (λ s. str_eq s "revoked") status))

  -- The record that an answer leaves behind, at a later check.
  answered_lasts :
      (now later_now : ℕ) (r : LocalLicenseRecord) (resp : ValidateLicenseResponse) (grace : ℕ)
      → IsForward r.highest_seen_clock now
      → resp.status ≡ "expired"
      → resp.grace_period_days ≡ pos grace
      → now ≤ later_now
      → later_now < now + (grace + 1) * day
      → is_licensed (offline_status host later_now (seen host later_now (answered host now resp r)))
        ≡ true
  unfolding answered
  answered_lasts now later_now r resp grace f status g le lt =
      let a = answered host now resp r in
      let (same_status, same_grace, same_last) = seen_keeps host later_now a in
      let highest =
        highest-seen host later_now a
        ∙ ap (λ w. advance_clock_watermark w later_now)
            (highest-seen host now r ∙ advanced_to_now r.highest_seen_clock now f)
        ∙ advanced_to_now (some now) later_now le in
      offline_allows later_now (seen host later_now a) (same_status ∙ status)
        (rw highest (omega arith)) (rw (same_grace, same_last, g) lt)

  -- An expiry is not final, unlike a revocation. Say a check of a stored license gets the answer
  -- "expired", with a grace period of some days, and no statement of the local database fails. Then this
  -- check blocks the program; yet when the server cannot be reached at the next check, on a clock that
  -- was not set back and within the grace period (counted from the answer "expired"), that check lets
  -- the program run.
  pub expired_then_offline :
      (machine later_machine : Machine) (api later_api : LicenseApiClient) (r : LocalLicenseRecord)
      (id : String) (device : DeviceInfo) (log : List LogEntry) (resp : ValidateLicenseResponse)
      (grace : ℕ) (e : ApiError)
      → r.license_id ≡ some id
      → IsForward r.highest_seen_clock machine.now
      → api.validate_license (request host machine id device) ≡ ok resp
      → resp.status ≡ "expired"
      → resp.grace_period_days ≡ pos grace
      → later_api.validate_license (request host later_machine id device) ≡ err e
      → machine.now ≤ later_machine.now
      → later_machine.now < machine.now + (grace + 1) * day
      → let (outcome, s, o) = enforce host machine api (holding host r device log) [] in
        ((message : String) × (outcome ≡ blocked message false))
        × ((enforce host later_machine later_api s o).0 ≡ allowed)
  unfolding answered
  expired_then_offline machine later_machine api later_api r id device log resp grace e h f up
        status g down le lt =
      rw (expired_enforce machine api r id device log resp h up status) (
        (_, refl),
        fallen_allowed later_machine later_api (answered host machine.now resp r) id device _ e
            (license_id-seen host machine.now r ∙ h) down
            (answered_lasts machine.now later_machine.now r resp grace f status g le lt),
      )
