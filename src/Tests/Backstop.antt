-- ===== src/Tests/Backstop.antt =====
-- The theorems on reconciliation at concrete payments.
use bank_statement_processor.Prelude.{true, some, [], ◌∷◌, ◌≡◌, refl, arith}
use bank_statement_processor.Repository.Db.{ok, Tables}
use bank_statement_processor.Razorpay.Client.{RazorpayPayment}
use bank_statement_processor.Payment.Process.{process_webhook_event}
use bank_statement_processor.Payment.Plans.{period_end_from, map_razorpay_payment_status}
use bank_statement_processor.Payment.Effects.{Activated}
use bank_statement_processor.Payment.Unchecked.{reconciled_capture_unchecked}
use bank_statement_processor.Domain.Status.{PlanType}
use bank_statement_processor.Prelude.Int.{pos}
use bank_statement_processor.Payment.Guards.{Untouched}
use bank_statement_processor.Payment.Reconcile.{
  reconcile_one, find_local, reconcile_event_type, heal, reconcile_payload,
}
use bank_statement_processor.Payment.Backstop.{reconcile_reports_unhealed}
use bank_statement_processor.Domain.Records.{Payment}
use bank_statement_processor.Tests.Document.{documents, Document}
use bank_statement_processor.Tests.Shop.{
  run_event, env, purchase, shop_with, shop, captured, monthly_plan,
}

abbrev linked : RazorpayPayment
linked = record { id = "pay_9"; status = "captured"; order_id = some "order_9" }

abbrev local : Payment
local = record purchase { provider_ref = some "pay_9" }

abbrev link_shop : Tables Document
link_shop = shop_with (local ∷ []) [] []

-- The purchase at one unit too little.
abbrev settled : RazorpayPayment
settled = record { id = "pay_1"; status = "captured"; order_id = some "order_1" }

reconciled_capture_unchecked_example :
    Untouched shop (process_webhook_event documents env "e1" (captured (pos 49899)) shop []).1
    × Activated 7 3
        (period_end_from 100 PlanType.monthly)
        (reconcile_one documents env settled shop []).1
unfolding run_event reconcile_one map_razorpay_payment_status find_local reconcile_event_type heal
    reconcile_payload
reconciled_capture_unchecked_example =
    reconciled_capture_unchecked documents env env settled purchase monthly_plan "e1"
      (captured (pos 49899)) (pos 49899) shop [] refl refl refl refl refl refl (λ e. ground arith)
      refl refl refl

reconcile_reports_unhealed_example :
    ((reconcile_one documents env linked link_shop []).0 ≡ ok true)
    × Untouched link_shop (reconcile_one documents env linked link_shop []).1
unfolding run_event
reconcile_reports_unhealed_example =
    reconcile_reports_unhealed documents env linked "order_9" local link_shop refl refl refl refl
      (λ e. ground arith)
