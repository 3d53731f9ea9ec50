-- ===== src/Payment/Plans.antt =====
-- Prices, durations and license keys (server/src/service/payment_service.rs, the functions at its end).
use bank_statement_processor.Prelude.{
  ℕ, suc, zero, ◌+◌, ◌*◌, ◌/◌, ◌%◌, String, Option, none, some, ltb, str_eq, if◌then◌else◌,
}
use Prim.Native.String.{◌++◌}
use bank_statement_processor.Prelude.Int.{ℤ, pos}
use bank_statement_processor.Domain.Status.{PlanType, PaymentStatus}

unfoldable pub plan_amount_minor : PlanType → ℤ
plan_amount_minor PlanType.trial = pos 0
plan_amount_minor PlanType.monthly = pos 49900
plan_amount_minor PlanType.yearly = pos 399900
plan_amount_minor PlanType.lifetime = pos 999900

-- Duration::days, in microseconds.
abbrev pub days : ℕ → ℕ
days n = n * (86400 * 1000000)

unfoldable pub plan_duration : PlanType → Option ℕ
plan_duration PlanType.trial = some (days 14)
plan_duration PlanType.monthly = some (days 30)
plan_duration PlanType.yearly = some (days 365)
plan_duration PlanType.lifetime = none

-- plan_duration(plan).map(|d| Utc::now() + d)
unfoldable pub period_end_from : ℕ → PlanType → Option ℕ
unfolding plan_duration
period_end_from now plan = elim (plan_duration plan) [ none ↦ none | some d ↦ some (now + d) ]

unfoldable pub map_razorpay_payment_status : String → Option PaymentStatus
map_razorpay_payment_status s =
    if str_eq s "captured"
    then some PaymentStatus.succeeded
    else if str_eq s "failed"
    then some PaymentStatus.failed
    else if str_eq s "refunded"
    then some PaymentStatus.refunded
    else none

digit : ℕ → String
digit zero = "0"
digit (suc zero) = "1"
digit (suc (suc zero)) = "2"
digit (suc (suc (suc zero))) = "3"
digit (suc (suc (suc (suc zero)))) = "4"
digit (suc (suc (suc (suc (suc zero))))) = "5"
digit (suc (suc (suc (suc (suc (suc zero)))))) = "6"
digit (suc (suc (suc (suc (suc (suc (suc zero))))))) = "7"
digit (suc (suc (suc (suc (suc (suc (suc (suc zero)))))))) = "8"
digit _ = "9"

-- A number in decimal, with more fuel than it has digits.
decimal_loop : ℕ → ℕ → String
unfolding digit
decimal_loop zero n = ""
decimal_loop (suc fuel) n =
    let rest = decimal_loop fuel (n / 10) in if ltb n 10 then digit n else rest ++ digit (n % 10)

-- `{}` of an i64 that is not negative.
unfoldable pub decimal : ℕ → String
unfolding decimal_loop
decimal n = decimal_loop (suc n) n
