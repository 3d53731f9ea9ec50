-- ===== src/Repository/Audit.antt =====
-- The audit writes (server/src/repository/audit.rs, server/src/service/audit_service.rs). The service
-- spawns each write as a task of its own; here it happens at once, and like there its failure is
-- dropped and never reaches the caller.
use bank_statement_processor.Prelude.{ℕ, String, Bool, Option, none, ◌∷◌, ◌==◌, if◌then◌else◌, any}
use bank_statement_processor.Domain.Status.{ValidationLogResult}
use bank_statement_processor.Domain.Records.{NewLicenseValidationLogEntry, NewLoginHistoryEntry}
use bank_statement_processor.Repository.Db.{ok, Tables, Cmd, fails, later}

unfoldable pub validation_entry : ℕ → String → ValidationLogResult → NewLicenseValidationLogEntry
validation_entry license_id device_id result = record {
  license_id = license_id;
  device_id = device_id;
  result = result;
  client_clock = none;
}

module _ {V : Type 0} where
  -- INSERT INTO license_validation_logs, refused without the license it references.
  unfoldable pub insert_validation : NewLicenseValidationLogEntry → Tables V → Tables V
  insert_validation e t =
      if any (λ l. l.id == e.license_id) t.licenses
      then record t { license_validation_logs = e ∷ t.license_validation_logs }
      else t

  -- INSERT INTO login_history, refused without the user it references.
  unfoldable pub insert_login : NewLoginHistoryEntry → Tables V → Tables V
  insert_login e t =
      if any (λ u. u.id == e.user_id) t.users
      then record t { login_history = e ∷ t.login_history }
      else t

module _ {V E : Type 0} where
  unfoldable pub record_validation : ℕ → String → ValidationLogResult → Cmd V E Unit
  record_validation license_id device_id result t o = (
    ok tt,
    (if fails o then t else insert_validation (validation_entry license_id device_id result) t),
    later o,
  )

  unfoldable pub record_login : ℕ → Option String → Bool → Cmd V E Unit
  record_login user_id device_id success t o = (
    ok tt,
    (if fails o
        then t
        else insert_login (record { user_id = user_id; device_id = device_id; success = success })
            t),
    later o,
  )
