-- ===== src/Desktop/Store.antt =====
-- The license tables of the desktop program's SQLite file (src/license/storage.rs). Each statement may
-- fail; the list of outages says which do. The sealing of a record (an HMAC in base64) and the text of
-- an instant are the host's. A row is read back as it was written: its instants survive the text.
use bank_statement_processor.Prelude.{
  ℕ, suc, String, Bool, true, Option, none, some, List, ◌∷◌, ltb, str_eq, if◌then◌else◌,
}
use Prim.Native.String.{◌++◌}
use bank_statement_processor.Prelude.Int.{ℤ, pos, negsuc}
use bank_statement_processor.Repository.Db.{Result, ok, err, Outages, fails, later}
use bank_statement_processor.Payment.Plans.{decimal}

-- What the program takes from its libraries: base64 of the HMAC-SHA256 of a text under the built-in
-- key, and an instant as RFC 3339 text and back, and as a date to show; and a text without the white space
-- around it.
pub record Host : Type 0 where
  pub hmac : String → String
  pub to_rfc3339 : ℕ → String
  pub parse_rfc3339 : String → Option ℕ
  pub format_date : ℕ → String
  pub trim : String → String

pub record LocalLicenseRecord : Type 0 where
  pub customer_id : Option String
  pub license_id : Option String
  pub license_key : Option String
  pub subscription_type : Option String
  pub status : String
  pub expires_at : Option ℕ
  pub last_validated_at : Option ℕ
  pub grace_period_days : ℤ
  pub highest_seen_clock : Option ℕ

pub record DeviceInfo : Type 0 where
  pub device_id : String
  pub machine_fingerprint : String
  pub fingerprint_inputs_json : String

pub record LogEntry : Type 0 where
  pub result : String
  pub online : Bool
  pub detail : String

-- A row of `local_license`: the record, and the seal that it was saved with, if it was sealed.
pub record SavedLicense : Type 0 where
  pub license : LocalLicenseRecord
  pub integrity_hmac : Option String

pub record Store : Type 0 where
  pub local_license : Option SavedLicense
  pub device_info : Option DeviceInfo
  pub license_validation_log : List LogEntry

unfoldable pub not_activated : LocalLicenseRecord
not_activated = record {
  customer_id = none;
  license_id = none;
  license_key = none;
  subscription_type = none;
  status = "not_activated";
  expires_at = none;
  last_validated_at = none;
  grace_period_days = pos 7;
  highest_seen_clock = none;
}

abbrev pub or_empty : Option String → String
or_empty none = ""
or_empty (some s) = s

-- `{}` of an i64.
unfoldable pub decimal_ℤ : ℤ → String
decimal_ℤ (pos n) = decimal n
decimal_ℤ (negsuc n) = "-" ++ decimal (suc n)

-- A step of the program on its store; a statement that fails is a value of its result.
abbrev pub Local : Type 0 → Type 0
Local A = Store → Outages → A × Store × Outages

infixl 5 ◌>>=◌ ◌>>◌
abbrev pub ◌>>=◌ : {A B : Type 0} → Local A → (A → Local B) → Local B
◌>>=◌ m f s o = let (a, s', o') = m s o in f a s' o'

-- `let _ = …`: the result is dropped.
abbrev pub ◌>>◌ : {A B : Type 0} → Local A → Local B → Local B
◌>>◌ m k s o = let (a, s', o') = m s o in k s' o'

abbrev pub return : {A : Type 0} → A → Local A
return a s o = (a, s, o)

-- One statement of SQLite: its answer and the new store, or the text of the error.
unfoldable pub execute :
    {A : Type 0} → String → (Store → Result String A × Store) → Local (Result String A)
execute context f s o =
    if fails o then (err context, s, later o) else (let (r, s') = f s in (r, s', later o))

unfoldable pub should_advance : ℕ → Option ℕ → Bool
should_advance now none = true
should_advance now (some existing) = ltb existing now

abbrev pub tampered : String
tampered = "local license record failed integrity check (cached data may have been tampered with)"

module _ (host : Host) where
  open host use {hmac, to_rfc3339}

  abbrev pub time_text : Option ℕ → String
  time_text none = ""
  time_text (some t) = to_rfc3339 t

  unfoldable pub integrity_payload : LocalLicenseRecord → String
  integrity_payload r =
      or_empty r.license_id
      ++ ("|"
          ++ (r.status
              ++ ("|"
                  ++ (time_text r.expires_at
                      ++ ("|"
                          ++ (decimal_ℤ r.grace_period_days
                              ++ ("|" ++ time_text r.last_validated_at)))))))

  unfoldable pub compute_integrity_hmac : LocalLicenseRecord → String
  unfolding integrity_payload
  compute_integrity_hmac r = hmac (integrity_payload r)

  -- A row without a seal is not yet sealed and passes.
  unfoldable pub check_seal : Option SavedLicense → Result String (Option LocalLicenseRecord)
  check_seal none = ok none
  check_seal (some row) = elim row.integrity_hmac [
    | none ↦ ok (some row.license)
    | some stored ↦
        if str_eq stored (compute_integrity_hmac row.license)
        then ok (some row.license)
        else err tampered
  ]

  unfoldable pub load_local_license : Local (Result String (Option LocalLicenseRecord))
  load_local_license = execute "load_local_license" (λ s. (check_seal s.local_license, s))

  unfoldable pub save_local_license : LocalLicenseRecord → Local (Result String Unit)
  save_local_license r = execute "save_local_license" (λ s. (
    ok tt,
    record s {
      local_license =
          some (record { license = r; integrity_hmac = some (compute_integrity_hmac r) });
    },
  ))

  unfoldable pub advance_from :
      ℕ → Result String (Option LocalLicenseRecord) → Local (Result String Unit)
  unfolding should_advance
  advance_from now (err e) = return (err e)
  advance_from now (ok none) = return (ok tt)
  advance_from now (ok (some r)) =
      if should_advance now r.highest_seen_clock
      then save_local_license (record r { highest_seen_clock = some now })
      else return (ok tt)

  -- `advance_clock_watermark` on the store.
  unfoldable pub store_watermark : ℕ → Local (Result String Unit)
  store_watermark now = do loaded ← load_local_license; advance_from now loaded

unfoldable pub load_device_info : Local (Result String (Option DeviceInfo))
load_device_info = execute "load_device_info" (λ s. (ok s.device_info, s))

-- `fresh` is the identity that is made when there is none. The row has the primary key 1, so an insert
-- over an existing row fails.
unfoldable pub insert_device_info : DeviceInfo → Store → Result String Unit × Store
insert_device_info fresh s = elim s.device_info [
  | some existing ↦ (err "get_or_create_device_info insert", s)
  | none ↦ (ok tt, record s { device_info = some fresh })
]

unfoldable pub get_or_create_device_info : DeviceInfo → Local (Result String DeviceInfo)
get_or_create_device_info fresh = do
  loaded ← load_device_info
  elim loaded [
    | err e ↦ return (err e)
    | ok (some existing) ↦ return (ok existing)
    | ok none ↦ do
      inserted ← execute "get_or_create_device_info insert" (insert_device_info fresh)
      elim inserted [ err e ↦ return (err e) | ok u ↦ return (ok fresh) ]
  ]

unfoldable pub log_validation : String → Bool → String → Local (Result String Unit)
log_validation result online detail = execute "log_validation" (λ s. (
  ok tt,
  record s {
    license_validation_log =
        record { result = result; online = online; detail = detail } ∷ s.license_validation_log;
  },
))
