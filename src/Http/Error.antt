-- ===== src/Http/Error.antt =====
-- What a client is told of an error (server/src/routes/error.rs, server/src/repository/error.rs).
use bank_statement_processor.Prelude.{ℕ, String, List}
use Prim.Native.String.{◌++◌}
use bank_statement_processor.Domain.Records.{Device}
use bank_statement_processor.Repository.Db.{
  RepositoryError, database, invalid_data, duplicate_provider_reference,
}
use bank_statement_processor.Licensing.Service.{LicenseOperationError}
use bank_statement_processor.Payment.Resolve.{PaymentOperationError}
use bank_statement_processor.Auth.Service.{AuthError}
use bank_statement_processor.Admin.Service.{AdminOperationError}

pub data ApiError : Type 0 where
  invalid_request : String → ApiError
  license_not_found license_revoked license_expired device_not_activated : ApiError
  device_limit_reached : List Device → ApiError
  device_mismatch invalid_credentials unauthorized forbidden rate_limited : ApiError
  invalid_plan_type : ApiError
  provider_error : String → ApiError
  device_not_found license_not_revoked : ApiError
  server : String → ApiError

-- The text of a failure of the database, and `{:?}` of a text.
pub record Texts : Type 0 where
  pub sqlx : String
  pub debug : String → String

module _ (texts : Texts) where
  unfoldable pub repository_text : RepositoryError → String
  repository_text database = "database error: " ++ texts.sqlx
  repository_text (invalid_data m) = "invalid stored data: " ++ m
  repository_text (duplicate_provider_reference r) =
      "multiple payments rows share provider_ref " ++ texts.debug r

  unfoldable pub from_license : LicenseOperationError → ApiError
  unfolding repository_text
  from_license LicenseOperationError.license_not_found = license_not_found
  from_license LicenseOperationError.license_revoked = license_revoked
  from_license LicenseOperationError.license_expired = license_expired
  from_license LicenseOperationError.device_not_activated = device_not_activated
  from_license (LicenseOperationError.device_limit_reached devices) = device_limit_reached devices
  from_license LicenseOperationError.device_mismatch = device_mismatch
  from_license (LicenseOperationError.repository e) = server (repository_text e)

  unfoldable pub from_auth : AuthError → ApiError
  unfolding repository_text
  from_auth AuthError.invalid_credentials = invalid_credentials
  from_auth AuthError.unauthorized = unauthorized
  from_auth AuthError.forbidden = forbidden
  from_auth (AuthError.repository e) = server (repository_text e)

  unfoldable pub from_admin : AdminOperationError → ApiError
  unfolding repository_text
  from_admin AdminOperationError.license_not_found = license_not_found
  from_admin AdminOperationError.license_not_revoked = license_not_revoked
  from_admin AdminOperationError.device_not_found = device_not_found
  from_admin (AdminOperationError.repository e) = server (repository_text e)

  unfoldable pub from_payment : PaymentOperationError → ApiError
  unfolding repository_text
  from_payment PaymentOperationError.invalid_plan_type = invalid_plan_type
  from_payment (PaymentOperationError.provider_error m) = provider_error m
  from_payment (PaymentOperationError.repository e) = server (repository_text e)

unfoldable pub status_code : ApiError → ℕ
status_code (invalid_request m) = 400
status_code license_not_found = 404
status_code device_not_activated = 404
status_code (device_limit_reached existing) = 409
status_code license_expired = 410
status_code license_revoked = 410
status_code device_mismatch = 403
status_code invalid_credentials = 401
status_code unauthorized = 401
status_code forbidden = 403
status_code rate_limited = 429
status_code invalid_plan_type = 400
status_code (provider_error m) = 502
status_code device_not_found = 404
status_code license_not_revoked = 409
status_code (server m) = 500

unfoldable pub error_code : ApiError → String
error_code (invalid_request m) = "INVALID_REQUEST"
error_code license_not_found = "LICENSE_NOT_FOUND"
error_code device_not_activated = "DEVICE_NOT_ACTIVATED"
error_code (device_limit_reached existing) = "DEVICE_LIMIT_REACHED"
error_code license_expired = "LICENSE_EXPIRED"
error_code license_revoked = "LICENSE_REVOKED"
error_code device_mismatch = "DEVICE_MISMATCH"
error_code invalid_credentials = "INVALID_CREDENTIALS"
error_code unauthorized = "UNAUTHORIZED"
error_code forbidden = "FORBIDDEN"
error_code rate_limited = "RATE_LIMITED"
error_code invalid_plan_type = "INVALID_PLAN_TYPE"
error_code (provider_error m) = "PROVIDER_ERROR"
error_code device_not_found = "DEVICE_NOT_FOUND"
error_code license_not_revoked = "LICENSE_NOT_REVOKED"
error_code (server m) = "SERVER_ERROR"
