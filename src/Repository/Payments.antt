-- ===== src/Repository/Payments.antt =====
-- The `payments` table (server/src/repository/payment.rs; constraints: migrations 0002, 0008, 0009).
use bank_statement_processor.Prelude.{
  ℕ, suc, String, Bool, false, not, ◌&&◌, Option, none, some, List, [], ◌∷◌, ◌==◌, if◌then◌else◌,
  select, any, update_where,
}
use bank_statement_processor.Domain.Status.{PaymentStatus}
use bank_statement_processor.Domain.Records.{Payment, NewPayment}
use bank_statement_processor.Repository.Db.{
  RepositoryError, database, duplicate_provider_reference, Result, ok, err, Tables, Query, Cmd,
  query, exec, return,
}
use bank_statement_processor.Repository.Query.{◌>>=◌}
use bank_statement_processor.Repository.Sql.{column_eq, latest_by}

unfoldable pub single_payment_or_duplicate_error :
    List Payment → String → Result RepositoryError (Option Payment)
single_payment_or_duplicate_error [] provider_ref = ok none
single_payment_or_duplicate_error (p ∷ []) provider_ref = ok (some p)
single_payment_or_duplicate_error (p ∷ q ∷ rows) provider_ref =
    err (duplicate_provider_reference provider_ref)

unfoldable pub with_provider_ref : String → List Payment → List Payment
with_provider_ref r = select (λ p. column_eq p.provider_ref r)

-- UPDATE payments SET status = $2 WHERE id = $1
unfoldable pub set_payment_status : ℕ → PaymentStatus → List Payment → List Payment
set_payment_status id s = update_where (λ p. p.id == id) (λ p. record p { status = s })

-- The partial UNIQUE index on `gateway_payment_id` refuses to write `g` to the row `id`: another row
-- holds that value already.
unfoldable pub gateway_taken : ℕ → Option String → List Payment → Bool
gateway_taken id none ps = false
gateway_taken id (some g) ps =
    any (λ p. p.id == id) ps && any (λ p. not (p.id == id) && column_eq p.gateway_payment_id g) ps

unfoldable pub provider_ref_taken : Option String → List Payment → Bool
provider_ref_taken none ps = false
provider_ref_taken (some r) ps = any (λ p. column_eq p.provider_ref r) ps

unfoldable pub new_payment_row : NewPayment → ℕ → ℕ → Payment
new_payment_row n id now = record {
  id = id;
  subscription_id = n.subscription_id;
  amount_minor = n.amount_minor;
  currency = n.currency;
  provider = n.provider;
  provider_ref = n.provider_ref;
  gateway_payment_id = none;
  status = n.status;
  created_at = now;
}

module _ {V : Type 0} where
  unfoldable pub find_by_provider_ref : String → Query V RepositoryError (Option Payment)
  find_by_provider_ref r = do
    rows ← query database (λ t. with_provider_ref r t.payments)
    return (single_payment_or_duplicate_error rows r)

  unfoldable pub find_by_gateway_payment_id : String → Query V RepositoryError (Option Payment)
  find_by_gateway_payment_id g = query database (λ t.
      latest_by (λ p. p.created_at) (select (λ p. column_eq p.gateway_payment_id g) t.payments))

  unfoldable pub insert_payment_row :
      NewPayment → ℕ → Tables V → Result RepositoryError Payment × Tables V
  insert_payment_row n now t =
      if any (λ s. s.id == n.subscription_id) t.subscriptions
        && not (provider_ref_taken n.provider_ref t.payments)
      then (let row = new_payment_row n t.next_id.payments now in
          (
            ok row,
            record t {
              payments = row ∷ t.payments;
              next_id = record t.next_id { payments = suc t.next_id.payments };
            },
          ))
      else (err database, t)

  unfoldable pub insert : NewPayment → ℕ → Cmd V RepositoryError Payment
  insert n now = exec database (insert_payment_row n now)

  unfoldable pub update_status : ℕ → PaymentStatus → Cmd V RepositoryError Unit
  update_status id s =
      exec database (λ t. (ok tt, record t { payments = set_payment_status id s t.payments }))

  unfoldable pub record_gateway_payment_id : ℕ → String → Cmd V RepositoryError Unit
  record_gateway_payment_id id g = exec database (λ t.
      if gateway_taken id (some g) t.payments then (err database, t) else (
        ok tt,
        record t {
          payments =
              update_where (λ p. p.id == id) (λ p. record p { gateway_payment_id = some g })
                t.payments;
        },
      ))
