-- ===== src/Domain/Status/RoundTrip.antt =====
-- The stored text of each status enum and its reader are inverse (server/src/domain).
use bank_statement_processor.Prelude.{String, ◌≡◌, refl, ◌↔◌, arith, eq_iff}
use bank_statement_processor.Domain.Status.{
  Parsed, recognized, PaymentStatus, PlanType, SubscriptionStatus, LicenseRecordStatus,
  ValidationLogResult, payment_status_as_str, payment_status_from_str, plan_type_as_str,
  plan_type_from_str, subscription_status_as_str, subscription_status_from_str,
  license_status_as_str, license_status_from_str, validation_result_as_str,
  validation_result_from_str, UserRole, user_role_as_str, user_role_from_str,
}

-- The reader accepts a text as a value exactly when it is the text printed for that value.
abbrev pub IsCodec : {A : Type 0} → (A → String) → (String → Parsed A) → Type 0
IsCodec {A} as_str from_str = (s : String) (x : A) → (from_str s ≡ recognized x) ↔ (as_str x ≡ s)

module _ {A : Type 0} (as_str : A → String) (from_str : String → Parsed A) where
  reads_prints-IsCodec :
      ((s : String) (x : A) → from_str s ≡ recognized x → as_str x ≡ s)
      → ((x : A) → from_str (as_str x) ≡ recognized x)
      → IsCodec as_str from_str
  reads_prints-IsCodec reads prints s x = (reads s x, λ e. rw (← e) (prints x))

payment_reads :
    (s : String) (x : PaymentStatus)
    → payment_status_from_str s ≡ recognized x
    → payment_status_as_str x ≡ s
unfolding payment_status_as_str payment_status_from_str
payment_reads s x h = ground (
  arith,
  eq_iff s "pending",
  eq_iff s "succeeded",
  eq_iff s "failed",
  eq_iff s "refunded",
  eq_iff s "disputed",
)

payment_prints :
    (x : PaymentStatus) → payment_status_from_str (payment_status_as_str x) ≡ recognized x
unfolding payment_status_as_str payment_status_from_str
payment_prints PaymentStatus.pending = refl
payment_prints _ = refl

plan_reads :
    (s : String) (x : PlanType) → plan_type_from_str s ≡ recognized x → plan_type_as_str x ≡ s
unfolding plan_type_as_str plan_type_from_str
plan_reads s x h =
    ground (arith, eq_iff s "trial", eq_iff s "monthly", eq_iff s "yearly", eq_iff s "lifetime")

plan_prints : (x : PlanType) → plan_type_from_str (plan_type_as_str x) ≡ recognized x
unfolding plan_type_as_str plan_type_from_str
plan_prints PlanType.trial = refl
plan_prints _ = refl

subscription_reads :
    (s : String) (x : SubscriptionStatus)
    → subscription_status_from_str s ≡ recognized x
    → subscription_status_as_str x ≡ s
unfolding subscription_status_as_str subscription_status_from_str
subscription_reads s x h = ground (
  arith,
  eq_iff s "active",
  eq_iff s "expired",
  eq_iff s "cancelled",
  eq_iff s "suspended",
  eq_iff s "pending_payment",
)

subscription_prints :
    (x : SubscriptionStatus)
    → subscription_status_from_str (subscription_status_as_str x) ≡ recognized x
unfolding subscription_status_as_str subscription_status_from_str
subscription_prints SubscriptionStatus.active = refl
subscription_prints _ = refl

license_reads :
    (s : String) (x : LicenseRecordStatus)
    → license_status_from_str s ≡ recognized x
    → license_status_as_str x ≡ s
unfolding license_status_as_str license_status_from_str
license_reads s x h =
    ground (arith, eq_iff s "active", eq_iff s "revoked", eq_iff s "expired", eq_iff s "suspended")

license_prints :
    (x : LicenseRecordStatus) → license_status_from_str (license_status_as_str x) ≡ recognized x
unfolding license_status_as_str license_status_from_str
license_prints LicenseRecordStatus.active = refl
license_prints _ = refl

validation_reads :
    (s : String) (x : ValidationLogResult)
    → validation_result_from_str s ≡ recognized x
    → validation_result_as_str x ≡ s
unfolding validation_result_as_str validation_result_from_str
validation_reads s x h = ground (
  arith,
  eq_iff s "valid",
  eq_iff s "expired",
  eq_iff s "suspended",
  eq_iff s "revoked",
  eq_iff s "device_mismatch",
)

validation_prints :
    (x : ValidationLogResult)
    → validation_result_from_str (validation_result_as_str x) ≡ recognized x
unfolding validation_result_as_str validation_result_from_str
validation_prints ValidationLogResult.valid = refl
validation_prints _ = refl

role_reads :
    (s : String) (x : UserRole) → user_role_from_str s ≡ recognized x → user_role_as_str x ≡ s
unfolding user_role_as_str user_role_from_str
role_reads s x h = ground (arith, eq_iff s "customer", eq_iff s "admin")

role_prints : (x : UserRole) → user_role_from_str (user_role_as_str x) ≡ recognized x
unfolding user_role_as_str user_role_from_str
role_prints UserRole.customer = refl
role_prints _ = refl

-- For each of the six stored enums (payment, plan, subscription and license status, the result of
-- a validation, and the role of a user) and every text: `from_str` yields a value exactly when the text is the
-- one that `as_str` prints for it.
status_codecs :
    IsCodec payment_status_as_str payment_status_from_str
    × IsCodec plan_type_as_str plan_type_from_str
    × IsCodec subscription_status_as_str subscription_status_from_str
    × IsCodec license_status_as_str license_status_from_str
    × IsCodec validation_result_as_str validation_result_from_str
    × IsCodec user_role_as_str user_role_from_str
status_codecs = (
  reads_prints-IsCodec _ _ payment_reads payment_prints,
  reads_prints-IsCodec _ _ plan_reads plan_prints,
  reads_prints-IsCodec _ _ subscription_reads subscription_prints,
  reads_prints-IsCodec _ _ license_reads license_prints,
  reads_prints-IsCodec _ _ validation_reads validation_prints,
  reads_prints-IsCodec _ _ role_reads role_prints,
)
