-- ===== src/Tests/Concurrent.antt =====
-- Two deliveries of one purchase at once, both of which resolve before either claims.
use bank_statement_processor.Prelude.{ℕ, ◌+◌, String, some, [], ◌≡◌, ◌⊎◌, refl}
use bank_statement_processor.Prelude.Int.{pos}
use bank_statement_processor.Repository.Db.{Tables, ok}
use bank_statement_processor.Repository.WebhookEvents.{
  WebhookMutation, activate_subscription_and_license, LicenseMutation, applied, already_processed,
}
use bank_statement_processor.Razorpay.Webhook.{RazorpayWebhookPayload}
use bank_statement_processor.Payment.Plans.{days}
use bank_statement_processor.Payment.Process.{claim}
use bank_statement_processor.Payment.Interleaving.{
  Phase, resolved, finished, enter, System, Step, resolves, claims, Reach, here, next, start,
  applied_once,
}
use bank_statement_processor.Tests.Document.{Document, documents}
use bank_statement_processor.Tests.Shop.{run_event, shop, env, captured}

abbrev ids : ℕ → String
ids n = "e1"

abbrev payloads : ℕ → RazorpayWebhookPayload Document
payloads n = captured (pos 49900)

abbrev granted : WebhookMutation
granted =
    activate_subscription_and_license 7 3 (some (100 + days 30))
      (LicenseMutation.insert "AAAA-BBBB-CCCC-DDDD" (pos 1) (pos 7)) (some "pay_1")

abbrev state : Tables Document → (ℕ → Phase) → System Document
state t phase = record { tables = t; phase = phase }

abbrev one_resolved : System Document
one_resolved = state shop (enter (start documents ids payloads shop).phase 0 (resolved granted))

abbrev both_resolved : System Document
both_resolved = state shop (enter one_resolved.phase 1 (resolved granted))

abbrev after_first : Tables Document
after_first = (claim documents env "e1" (captured (pos 49900)) granted shop []).1

abbrev first_done : System Document
first_done = state after_first (enter both_resolved.phase 0 (finished (ok applied)))

abbrev after_second : Tables Document
after_second = (claim documents env "e1" (captured (pos 49900)) granted after_first []).1

abbrev both_done : System Document
both_done = state after_second (enter first_done.phase 1 (finished (ok already_processed)))

both_waiting : Reach documents ids payloads (start documents ids payloads shop) both_resolved
unfolding run_event
both_waiting =
    next {u = one_resolved} (next here (resolves 0 env [] granted refl refl refl refl))
      (resolves 1 env [] granted refl refl refl refl)

first_claim : Step documents ids payloads both_resolved first_done
unfolding run_event
first_claim = claims 0 env [] granted refl refl refl

second_claim : Step documents ids payloads first_done both_done
unfolding run_event
second_claim = claims 1 env [] granted refl refl refl

applied_once_example : (after_first ≡ shop) ⊎ (after_second ≡ after_first)
applied_once_example =
    applied_once documents ids payloads shop both_resolved first_done first_done both_done
      both_waiting first_claim here second_claim refl
