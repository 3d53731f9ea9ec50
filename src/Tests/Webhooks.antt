-- ===== src/Tests/Webhooks.antt =====
-- The theorems on webhook events at concrete events.
use bank_statement_processor.Prelude.{true, false, List, [], ◌∷◌, ◌≡◌, refl, ◌⊎◌, inl, arith}
use bank_statement_processor.Prelude.Int.{pos}
use bank_statement_processor.Repository.Db.{ok, err}
use bank_statement_processor.Payment.Resolve.{PaymentOperationError}
use bank_statement_processor.Payment.Process.{Env, process_webhook_event}
use bank_statement_processor.Payment.Outages.{process_all_or_nothing}
use bank_statement_processor.Payment.Delivery.{process_twice}
use bank_statement_processor.Payment.Retries.{Attempt, IsMade, deliver_all, retries_converge}
use bank_statement_processor.Payment.Guards.{Untouched, activation_refused}
use bank_statement_processor.Tests.Document.{documents}
use bank_statement_processor.Tests.Shop.{run_event, shop, env, captured, purchase}

-- The third statement fails: the third read of the resolution.
process_all_or_nothing_example :
    (((e : PaymentOperationError) × ((process_webhook_event documents env "e1"
            (captured (pos 49900))
            shop
            (false ∷ false ∷ true ∷ [])).0
          ≡ err e))
      × ((process_webhook_event documents env "e1"
            (captured (pos 49900))
            shop
            (false ∷ false ∷ true ∷ [])).1
          ≡ shop))
    ⊎ (((process_webhook_event documents env "e1"
            (captured (pos 49900))
            shop
            (false ∷ false ∷ true ∷ [])).0
          ≡ ok tt)
        × ((process_webhook_event documents env "e1"
              (captured (pos 49900))
              shop
              (false ∷ false ∷ true ∷ [])).1
            ≡ (process_webhook_event documents env "e1" (captured (pos 49900)) shop []).1))
process_all_or_nothing_example =
    process_all_or_nothing documents env "e1" (captured (pos 49900)) shop
      (false ∷ false ∷ true ∷ [])

pub first_delivery :
    (process_webhook_event documents env "e1" (captured (pos 49900)) shop []).0 ≡ ok tt
unfolding run_event
first_delivery = refl

-- The provider sends the event a second time, with another amount.
process_twice_example :
    (process_webhook_event documents env "e1"
      (captured (pos 1))
      (process_webhook_event documents env "e1" (captured (pos 49900)) shop []).1
      []).1
    ≡ (process_webhook_event documents env "e1" (captured (pos 49900)) shop []).1
process_twice_example =
    process_twice documents env env "e1" (captured (pos 49900)) (captured (pos 1)) shop [] []
      first_delivery

-- Less was captured than the plan costs.
activation_refused_example :
    Untouched shop (process_webhook_event documents env "e1" (captured (pos 100)) shop []).1
unfolding run_event
activation_refused_example =
    activation_refused documents env "e1" (captured (pos 100)) "payment" "order_1" purchase shop []
      refl refl refl (inl (pos 100, refl, λ e. ground arith))

-- The first two attempts fail, each at another statement.
abbrev attempts : List Attempt
attempts =
    record { env = env; outages = false ∷ false ∷ true ∷ [] }
    ∷ record { env = env; outages = true ∷ [] }
    ∷ []

retries_converge_example :
    (e : Env) × IsMade e attempts env
    × ((process_webhook_event documents env "e1"
          (captured (pos 49900))
          (deliver_all documents "e1" (captured (pos 49900)) attempts shop)
          []).1
        ≡ (process_webhook_event documents e "e1" (captured (pos 49900)) shop []).1)
retries_converge_example = retries_converge documents "e1" (captured (pos 49900)) attempts env shop
