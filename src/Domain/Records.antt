-- ===== src/Domain/Records.antt =====
-- The rows of the licensing server (server/src/domain). A timestamp is the number of microseconds
-- since the epoch, the precision of TIMESTAMPTZ; an id is a BIGSERIAL, so a natural number; a UUID is
-- its text. `payload` is a JSON document of the type `V`, which no statement looks into.
use bank_statement_processor.Prelude.{ℕ, String, Bool, Option}
use bank_statement_processor.Prelude.Int.{ℤ}
use bank_statement_processor.Domain.Status.{
  PaymentStatus, PlanType, SubscriptionStatus, LicenseRecordStatus, ValidationLogResult, UserRole,
}

pub record Payment : Type 0 where
  pub id : ℕ
  pub subscription_id : ℕ
  pub amount_minor : ℤ
  pub currency : String
  pub provider : String
  pub provider_ref : Option String
  pub gateway_payment_id : Option String
  pub status : PaymentStatus
  pub created_at : ℕ

pub record NewPayment : Type 0 where
  pub subscription_id : ℕ
  pub amount_minor : ℤ
  pub currency : String
  pub provider : String
  pub provider_ref : Option String
  pub status : PaymentStatus

pub record Subscription : Type 0 where
  pub id : ℕ
  pub user_id : ℕ
  pub plan_type : PlanType
  pub status : SubscriptionStatus
  pub started_at : ℕ
  pub current_period_end : Option ℕ
  pub auto_renew : Bool
  pub created_at : ℕ
  pub updated_at : ℕ

pub record NewSubscription : Type 0 where
  pub user_id : ℕ
  pub plan_type : PlanType
  pub status : SubscriptionStatus
  pub started_at : ℕ
  pub current_period_end : Option ℕ
  pub auto_renew : Bool

pub record License : Type 0 where
  pub id : ℕ
  pub subscription_id : ℕ
  pub license_key : String
  pub status : LicenseRecordStatus
  pub expires_at : Option ℕ
  pub max_devices : ℤ
  pub grace_period_days : ℤ
  pub issued_at : ℕ
  pub revoked_at : Option ℕ
  pub revoked_reason : Option String

pub record NewLicense : Type 0 where
  pub subscription_id : ℕ
  pub license_key : String
  pub status : LicenseRecordStatus
  pub expires_at : Option ℕ
  pub max_devices : ℤ
  pub grace_period_days : ℤ

pub record Device : Type 0 where
  pub id : ℕ
  pub license_id : ℕ
  pub device_id : String
  pub machine_fingerprint : String
  pub device_label : Option String
  pub first_seen_at : ℕ
  pub last_seen_at : ℕ
  pub deactivated_at : Option ℕ

pub record NewPaymentWebhookEvent (V : Type 0) : Type 0 where
  pub provider : String
  pub event_id : String
  pub event_type : String
  pub payload : V

pub record NewLicenseValidationLogEntry : Type 0 where
  pub license_id : ℕ
  pub device_id : String
  pub result : ValidationLogResult
  pub client_clock : Option ℕ

pub record User : Type 0 where
  pub id : ℕ
  pub email : String
  pub password_hash : String
  pub full_name : Option String
  pub company_name : Option String
  pub role : UserRole
  pub created_at : ℕ
  pub updated_at : ℕ

pub record Session : Type 0 where
  pub id : ℕ
  pub user_id : ℕ
  pub token_hash : String
  pub created_at : ℕ
  pub expires_at : ℕ
  pub revoked_at : Option ℕ

pub record NewUser : Type 0 where
  pub email : String
  pub password_hash : String
  pub full_name : Option String
  pub company_name : Option String

pub record NewSession : Type 0 where
  pub user_id : ℕ
  pub token_hash : String
  pub expires_at : ℕ

pub record NewLoginHistoryEntry : Type 0 where
  pub user_id : ℕ
  pub device_id : Option String
  pub success : Bool
