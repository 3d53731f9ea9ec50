-- ===== src/Domain/Status.antt =====
-- The status enums of the licensing server and their text forms
-- (server/src/domain/{payment,subscription,license,audit,user}.rs): `as_str`, which the SQL
-- statements bind, and `FromStr`, which reads a stored column back.
pub mod RoundTrip
use bank_statement_processor.Prelude.{String, Bool, true, false, if◌then◌else◌, str_eq}

-- `Result<Self, String>` of a `FromStr`; the message quotes the text that was not recognized.
pub data Parsed {ℓ} (A : Type ℓ) : Type ℓ where
  recognized : A → Parsed A
  unrecognized : String → Parsed A

pub data PaymentStatus : Type 0 where
  pending succeeded failed refunded disputed : PaymentStatus

pub data PlanType : Type 0 where
  trial monthly yearly lifetime : PlanType

pub data SubscriptionStatus : Type 0 where
  active expired cancelled suspended pending_payment : SubscriptionStatus

pub data LicenseRecordStatus : Type 0 where
  active revoked expired suspended : LicenseRecordStatus

pub data ValidationLogResult : Type 0 where
  valid expired suspended revoked device_mismatch : ValidationLogResult

pub data UserRole : Type 0 where
  customer admin : UserRole

-- The derived `PartialEq`.
unfoldable pub payment_status_eq : PaymentStatus → PaymentStatus → Bool
payment_status_eq PaymentStatus.pending PaymentStatus.pending = true
payment_status_eq PaymentStatus.succeeded PaymentStatus.succeeded = true
payment_status_eq PaymentStatus.failed PaymentStatus.failed = true
payment_status_eq PaymentStatus.refunded PaymentStatus.refunded = true
payment_status_eq PaymentStatus.disputed PaymentStatus.disputed = true
payment_status_eq _ _ = false

unfoldable pub license_status_eq : LicenseRecordStatus → LicenseRecordStatus → Bool
license_status_eq LicenseRecordStatus.active LicenseRecordStatus.active = true
license_status_eq LicenseRecordStatus.revoked LicenseRecordStatus.revoked = true
license_status_eq LicenseRecordStatus.expired LicenseRecordStatus.expired = true
license_status_eq LicenseRecordStatus.suspended LicenseRecordStatus.suspended = true
license_status_eq _ _ = false

pub payment_status_as_str : PaymentStatus → String
payment_status_as_str PaymentStatus.pending = "pending"
payment_status_as_str PaymentStatus.succeeded = "succeeded"
payment_status_as_str PaymentStatus.failed = "failed"
payment_status_as_str PaymentStatus.refunded = "refunded"
payment_status_as_str PaymentStatus.disputed = "disputed"

pub payment_status_from_str : String → Parsed PaymentStatus
payment_status_from_str s =
    if str_eq s "pending"
    then recognized PaymentStatus.pending
    else if str_eq s "succeeded"
    then recognized PaymentStatus.succeeded
    else if str_eq s "failed"
    then recognized PaymentStatus.failed
    else if str_eq s "refunded"
    then recognized PaymentStatus.refunded
    else if str_eq s "disputed"
    then recognized PaymentStatus.disputed
    else unrecognized s

pub plan_type_as_str : PlanType → String
plan_type_as_str PlanType.trial = "trial"
plan_type_as_str PlanType.monthly = "monthly"
plan_type_as_str PlanType.yearly = "yearly"
plan_type_as_str PlanType.lifetime = "lifetime"

unfoldable pub plan_type_from_str : String → Parsed PlanType
plan_type_from_str s =
    if str_eq s "trial"
    then recognized PlanType.trial
    else if str_eq s "monthly"
    then recognized PlanType.monthly
    else if str_eq s "yearly"
    then recognized PlanType.yearly
    else if str_eq s "lifetime"
    then recognized PlanType.lifetime
    else unrecognized s

pub subscription_status_as_str : SubscriptionStatus → String
subscription_status_as_str SubscriptionStatus.active = "active"
subscription_status_as_str SubscriptionStatus.expired = "expired"
subscription_status_as_str SubscriptionStatus.cancelled = "cancelled"
subscription_status_as_str SubscriptionStatus.suspended = "suspended"
subscription_status_as_str SubscriptionStatus.pending_payment = "pending_payment"

pub subscription_status_from_str : String → Parsed SubscriptionStatus
subscription_status_from_str s =
    if str_eq s "active"
    then recognized SubscriptionStatus.active
    else if str_eq s "expired"
    then recognized SubscriptionStatus.expired
    else if str_eq s "cancelled"
    then recognized SubscriptionStatus.cancelled
    else if str_eq s "suspended"
    then recognized SubscriptionStatus.suspended
    else if str_eq s "pending_payment"
    then recognized SubscriptionStatus.pending_payment
    else unrecognized s

pub license_status_as_str : LicenseRecordStatus → String
license_status_as_str LicenseRecordStatus.active = "active"
license_status_as_str LicenseRecordStatus.revoked = "revoked"
license_status_as_str LicenseRecordStatus.expired = "expired"
license_status_as_str LicenseRecordStatus.suspended = "suspended"

pub license_status_from_str : String → Parsed LicenseRecordStatus
license_status_from_str s =
    if str_eq s "active"
    then recognized LicenseRecordStatus.active
    else if str_eq s "revoked"
    then recognized LicenseRecordStatus.revoked
    else if str_eq s "expired"
    then recognized LicenseRecordStatus.expired
    else if str_eq s "suspended"
    then recognized LicenseRecordStatus.suspended
    else unrecognized s

pub validation_result_as_str : ValidationLogResult → String
validation_result_as_str ValidationLogResult.valid = "valid"
validation_result_as_str ValidationLogResult.expired = "expired"
validation_result_as_str ValidationLogResult.suspended = "suspended"
validation_result_as_str ValidationLogResult.revoked = "revoked"
validation_result_as_str ValidationLogResult.device_mismatch = "device_mismatch"

pub validation_result_from_str : String → Parsed ValidationLogResult
validation_result_from_str s =
    if str_eq s "valid"
    then recognized ValidationLogResult.valid
    else if str_eq s "expired"
    then recognized ValidationLogResult.expired
    else if str_eq s "suspended"
    then recognized ValidationLogResult.suspended
    else if str_eq s "revoked"
    then recognized ValidationLogResult.revoked
    else if str_eq s "device_mismatch"
    then recognized ValidationLogResult.device_mismatch
    else unrecognized s

pub user_role_as_str : UserRole → String
user_role_as_str UserRole.customer = "customer"
user_role_as_str UserRole.admin = "admin"

pub user_role_from_str : String → Parsed UserRole
user_role_from_str s =
    if str_eq s "customer"
    then recognized UserRole.customer
    else if str_eq s "admin"
    then recognized UserRole.admin
    else unrecognized s
